-- ===== src/Nif/Lists.antt =====
-- What `get_list` and `get_string` read of a term, and what `load` makes of a refused resource type.
use nx_iree.Base.{
  ℕ, zero, ◌≤◌, suc, ◌+◌, ◌≡◌, refl, Option, none, some, List, [], ◌∷◌, ◌++◌, false, Text, length,
  arith, take-append_length,
}
use mathlib.Core.Option
use nx_iree.Base.Int.{pos, negsuc}
use nx_iree.Erlang.{Env, IsList, ResourceType}
use nx_iree.Nif.Terms.{list_loop, get_list, get_string, load_nif, open_resource}

-- All elements, if each of them can be read.
unfoldable pub read_all {ℓ κ} :
    {A : Type ℓ} {B : Type κ} → (A → Option B) → List A → Option (List B)
read_all get [] = some []
read_all get (x ∷ xs) = elim (get x) [
  | none ↦ none
  | some y ↦ Option.map (λ ys. y ∷ ys) (read_all get xs)
]

module _ (e : Env) {A : Type 0} (get : e.Term → Option A) where
  -- On a term that is a proper list, the loop of `get_list` needs no more fuel than the list
  -- has elements: with as much or more it reads every element in order, or fails if one cannot
  -- be read.
  pub list_loop-enough :
      (t : e.Term) (xs : List e.Term) (fuel : ℕ)
      → IsList e t xs
      → length xs ≤ fuel
      → list_loop e get fuel t ≡ read_all get xs
  unfolding list_loop read_all
  list_loop-enough t [] zero h le = refl
  list_loop-enough t [] (suc fuel) h le = ground (arith, h.1)
  list_loop-enough t (x ∷ xs) zero h le = absurd (omega arith)
  list_loop-enough t (x ∷ xs) (suc fuel) (h, (rest, c, r)) le =
      ground (arith, list_loop-enough rest xs fuel r)

  -- On a term that is a proper list, `get_list` reads every element in order, or fails if one
  -- cannot be read; the loop ends with the list.
  pub get_list-read_all :
      (t : e.Term) (xs : List e.Term) → IsList e t xs → get_list e get t ≡ read_all get xs
  unfolding get_list
  get_list-read_all t [] h = ground (arith, list_loop-enough t [] 0 h (omega arith))
  get_list-read_all t (x ∷ xs) h =
      ground (arith, list_loop-enough t (x ∷ xs) (length (x ∷ xs)) h (omega arith))

-- `enif_get_string` on a list of Latin-1 characters, as documented: with room for them all it
-- writes them and a terminator, and returns how many bytes it wrote.
abbrev pub WritesString : (e : Env) → e.Term → Text → Type 0
WritesString e t text =
    (e.get_list_length t ≡ some (length text))
    × (e.get_string t (length text + 1) ≡ (pos (suc (length text)), text ++ 0 ∷ []))

-- A character list that the emulator writes with its terminator is read by `get_string` without
-- it.
pub get_string-text :
    (e : Env) (t : e.Term) (text : Text) → WritesString e t text → get_string e t ≡ some text
unfolding get_string
get_string-text e t text h = ground (arith, h.0, h.1, take-append_length text (0 ∷ []))

-- A resource type that the emulator refuses is noticed by `open_resource`, and by nobody else:
-- `load` reports success.
pub load_nif-success :
    (e : Env) (t : ResourceType)
    → e.open_resource_type t ≡ false
    → (open_resource e t ≡ negsuc 0) × (load_nif e ≡ pos 0)
unfolding load_nif open_resource
load_nif-success e t refused = ground arith
