-- ===== src/Erlang.antt =====
-- The Erlang NIF interface that c_src/nx_iree.cc calls: terms, and how they are read and made.
use nx_iree.Base.{ℕ, suc, ◌≡◌, Option, none, some, List, [], ◌∷◌, Bool, Text, length}
use nx_iree.Base.Int.{ℤ}
use nx_iree.Machine.{Ptr, Cell}

-- The resource types that the library opens.
pub data ResourceType : Type 0 where
  vm_instance hal_device driver_registry tensor : ResourceType

pub record Env : Type 1 where
  pub Term : Type 0
  pub get_list_length : Term → Option ℕ
  pub get_list_cell : Term → Option (Term × Term)
  pub get_int64 : Term → Option ℤ
  pub inspect_binary : Term → Option (List ℕ)
  -- `enif_get_string` into a buffer of the size given: what it returns, and what it writes.
  pub get_string : Term → ℕ → ℤ × List ℕ
  -- The pointer that a resource of the type holds.
  pub get_resource : ResourceType → Term → Option Ptr
  pub make_atom : Text → Term
  pub make_string : Text → Term
  pub make_int64 : ℤ → Term
  pub make_uint64 : ℕ → Term
  pub make_tuple : List Term → Term
  pub make_list : List Term → Term
  pub make_binary : List Cell → Term
  pub make_resource : ResourceType → Ptr → Term
  -- Whether the emulator opens a resource type.
  pub open_resource_type : ResourceType → Bool

-- A term is the proper list of these terms.
abbrev pub IsList : (e : Env) → e.Term → List e.Term → Type 0
IsList e t [] = (e.get_list_length t ≡ some 0) × (e.get_list_cell t ≡ none)
IsList e t (x ∷ xs) =
    (e.get_list_length t ≡ some (suc (length xs)))
    × ((rest : e.Term) × (e.get_list_cell t ≡ some (x, rest)) × IsList e rest xs)
