-- ===== src/Tensor/Bytes.antt =====
-- Little-endian fields of a serialised tensor, as `memcpy` of an integer lays them out on the
-- 64-bit hosts: four bytes of type, eight for a `size_t` or an `iree_hal_dim_t`.
use nx_iree.Base.{
  ℕ, zero, suc, ◌+◌, ◌*◌, ◌/◌, ◌%◌, ◌^◌, ◌<◌, ◌≡◌, refl, Option, none, some, List, [], ◌∷◌, ◌++◌,
  length, take, drop, length-append, take-append_length, drop-append_length, ap, subst, arith,
}
use native.Mathlib.Nat.{pow-suc}
use nx_iree.Machine.{Cell}

unfoldable pub le_bytes : ℕ → ℕ → List Cell
le_bytes zero n = []
le_bytes (suc w) n = some (n % 256) ∷ le_bytes w (n / 256)

abbrev push_byte : ℕ → Option ℕ → Option ℕ
push_byte b none = none
push_byte b (some n) = some (b + 256 * n)

-- The integer that some bytes hold, if all of them are determined.
unfoldable pub le_value : List Cell → Option ℕ
le_value [] = some 0
le_value (none ∷ cs) = none
le_value (some b ∷ cs) = push_byte b (le_value cs)

unfoldable pub le_words : List ℕ → List Cell
le_words [] = []
le_words (d ∷ ds) = le_bytes 8 d ++ le_words ds

abbrev push_word : Option ℕ → Option (List ℕ) → Option (List ℕ)
push_word none ds = none
push_word (some d) none = none
push_word (some d) (some ds) = some (d ∷ ds)

-- The first `n` words of eight bytes.
unfoldable pub le_values : ℕ → List Cell → Option (List ℕ)
le_values zero cs = some []
le_values (suc n) cs = push_word (le_value (take 8 cs)) (le_values n (drop 8 cs))

pub length-le_bytes : (w n : ℕ) → length (le_bytes w n) ≡ w
unfolding le_bytes
length-le_bytes zero n = refl
length-le_bytes (suc w) n = omega (arith, length-le_bytes w (n / 256))

pub length-le_words : (ds : List ℕ) → length (le_words ds) ≡ 8 * length ds
unfolding le_words
length-le_words [] = refl
length-le_words (d ∷ ds) =
    omega (
      arith,
      length-append {0} (le_bytes 8 d) (le_words ds),
      length-le_bytes 8 d,
      length-le_words ds,
    )

pub le_value-le_bytes : (w n : ℕ) → n < 256 ^ w → le_value (le_bytes w n) ≡ some n
unfolding le_value le_bytes
le_value-le_bytes zero n h = ap some (omega arith)
le_value-le_bytes (suc w) n h =
    rw (le_value-le_bytes w (n / 256) (omega (arith, rw pow-suc at h))) (ap some (omega arith))

-- Every element of the list is below 2^64.
abbrev pub AllU64 : List ℕ → Type 0
AllU64 [] = Unit {0}
AllU64 (d ∷ ds) = (d < 2 ^ 64) × AllU64 ds

module _ (w n : ℕ) (rest : List Cell) where
  pub take-le_bytes : take w (le_bytes w n ++ rest) ≡ le_bytes w n
  take-le_bytes =
      subst (λ k. take k (le_bytes w n ++ rest) ≡ le_bytes w n) (length-le_bytes w n)
        (take-append_length (le_bytes w n) rest)

  pub drop-le_bytes : drop w (le_bytes w n ++ rest) ≡ rest
  drop-le_bytes =
      subst (λ k. drop k (le_bytes w n ++ rest) ≡ rest) (length-le_bytes w n)
        (drop-append_length (le_bytes w n) rest)

pub le_values-le_words : (ds : List ℕ) → AllU64 ds → le_values (length ds) (le_words ds) ≡ some ds
unfolding le_values le_words
le_values-le_words [] h = refl
le_values-le_words (d ∷ ds) h = rw (
  take-le_bytes 8 d (le_words ds),
  drop-le_bytes 8 d (le_words ds),
  le_value-le_bytes 8 d h.0,
  le_values-le_words ds h.1,
)
