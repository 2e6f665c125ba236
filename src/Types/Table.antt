-- ===== src/Types/Table.antt =====
-- The type names against one table, and what survives the way there and back.
use nx_iree.Base.{
  ◌↔◌, subst, ℕ, ◌≡◌, refl, ◌∙◌, ◌≢◌, ◌⊎◌, inl, inr, Text, codes, text_eq, text_eq_iff, List, [],
  ◌∷◌, if◌then◌else◌, Bool-cases, arith,
}
use nx_iree.Types.{
  type_none, int_8, int_16, int_32, int_64, uint_8, uint_16, uint_32, uint_64, bfloat_16, float_16,
  float_32, float_64, complex_float_64, complex_float_128, nx_type_to_iree_type,
  iree_type_to_nx_type,
}

abbrev signed_types : List (Text × ℕ)
signed_types =
    (codes "s8", int_8) ∷ (codes "s16", int_16) ∷ (codes "s32", int_32) ∷ (codes "s64", int_64) ∷ []

abbrev other_types : List (Text × ℕ)
other_types =
    (codes "u8", uint_8)
    ∷ (codes "u16", uint_16)
    ∷ (codes "u32", uint_32)
    ∷ (codes "u64", uint_64)
    ∷ (codes "bf16", bfloat_16)
    ∷ (codes "f16", float_16)
    ∷ (codes "f32", float_32)
    ∷ (codes "f64", float_64)
    ∷ (codes "c64", complex_float_64)
    ∷ (codes "c128", complex_float_128)
    ∷ []

-- A name stands beside a code in a table.
abbrev pub Names : List (Text × ℕ) → Text → ℕ → Type 0
Names [] s c = ⊥
Names ((t, d) ∷ r) s c = ((s ≡ t) × (c ≡ d)) ⊎ Names r s c

abbrev pub Known : Text → ℕ → Type 0
Known s c = Names signed_types s c ⊎ Names other_types s c

find_type : List (Text × ℕ) → ℕ → Text → ℕ
find_type [] d s = d
find_type ((t, c) ∷ r) d s = if text_eq s t then c else find_type r d s

find_type-Names :
    (r : List (Text × ℕ)) (d : ℕ) (s : Text) → Names r s (find_type r d s) ⊎ (find_type r d s ≡ d)
unfolding find_type
find_type-Names [] d s = inr refl
find_type-Names ((t, c) ∷ r) d s = elim (Bool-cases (text_eq s t)) [
  | inl e ↦ rw e (inl (inl ((text_eq_iff s t).0 e, refl)))
  | inr e ↦ rw e (elim (find_type-Names r d s) [ inl n ↦ inl (inr n) | inr p ↦ inr p ])
]

nx_type-find :
    (s : Text)
    → nx_type_to_iree_type s ≡ find_type signed_types (find_type other_types type_none s) s
unfolding nx_type_to_iree_type find_type
nx_type-find s = refl

-- What holds at each entry of a table holds of all that it names.
abbrev Each : (Text → ℕ → Type 0) → List (Text × ℕ) → Type 0
Each P [] = Unit {0}
Each P ((t, c) ∷ r) = P t c × Each P r

Each-Names :
    (P : Text → ℕ → Type 0) (r : List (Text × ℕ)) (s : Text) (c : ℕ)
    → Each P r
    → Names r s c
    → P s c
Each-Names P [] s c e n = absurd n
Each-Names P ((t, d) ∷ r) s c e (inl (p, q)) = rw (p, q) e.0
Each-Names P ((t, d) ∷ r) s c e (inr n) = Each-Names P r s c e.1 n

-- A type name that `nx_type_to_iree_type` does not refuse is one of the fourteen of the table,
-- with its code there.
pub nx_type_to_iree_type-Known :
    (s : Text) → nx_type_to_iree_type s ≢ type_none → Known s (nx_type_to_iree_type s)
nx_type_to_iree_type-Known s h = rw (nx_type-find s) (go (find_type-Names other_types type_none s))
  where
    other : ℕ
    other = find_type other_types type_none s

    go : Names other_types s other ⊎ (other ≡ type_none) → Known s (find_type signed_types other s)
    go n = elim (find_type-Names signed_types other s) [
      | inl m ↦ inl m
      | inr e ↦ rw e (elim n [ inl m ↦ inr m | inr z ↦ absurd (h (nx_type-find s ∙ e ∙ z)) ])
    ]

-- Each type name of the table is accepted by `nx_type_to_iree_type`, with its code there.
pub Known-nx_type_to_iree_type : (s : Text) (c : ℕ) → Known s c → nx_type_to_iree_type s ≡ c
unfolding nx_type_to_iree_type text_eq
Known-nx_type_to_iree_type s c (inl n) =
    Each-Names (λ t d. nx_type_to_iree_type t ≡ d) signed_types s c (omega arith) n
Known-nx_type_to_iree_type s c (inr n) =
    Each-Names (λ t d. nx_type_to_iree_type t ≡ d) other_types s c (omega arith) n

-- A type name stands beside a code in the table of the fourteen types just if
-- `nx_type_to_iree_type` gives it the code, and the code is not the one of a refusal.
pub Known-iff : (s : Text) (c : ℕ) → Known s c ↔ ((nx_type_to_iree_type s ≡ c) × (c ≢ type_none))
Known-iff s c = (
  λ k. (Known-nx_type_to_iree_type s c k, not_none k),
  λ h. subst (Known s) h.0 (nx_type_to_iree_type-Known s (ground (arith, h.0, h.1))),
)
  where
    not_none : Known s c → c ≢ type_none
    not_none (inl n) = Each-Names (λ t d. d ≢ type_none) signed_types s c (ground arith) n
    not_none (inr n) = Each-Names (λ t d. d ≢ type_none) other_types s c (ground arith) n

-- For the unsigned, float and complex types, `iree_type_to_nx_type` and `nx_type_to_iree_type`
-- undo one another.
pub iree_type-nx_type :
    (s : Text) (c : ℕ)
    → Names other_types s c
    → (iree_type_to_nx_type (nx_type_to_iree_type s) ≡ s)
      × (nx_type_to_iree_type (iree_type_to_nx_type c) ≡ c)
unfolding nx_type_to_iree_type iree_type_to_nx_type text_eq
iree_type-nx_type s c =
    Each-Names
      (λ t d.
        (iree_type_to_nx_type (nx_type_to_iree_type t) ≡ t)
        × (nx_type_to_iree_type (iree_type_to_nx_type d) ≡ d))
      other_types s c (ground arith)

-- A signed type comes back from `iree_type_to_nx_type` under another name, which
-- `nx_type_to_iree_type` refuses.
pub signed_lost :
    (s : Text) (c : ℕ)
    → Names signed_types s c
    → (iree_type_to_nx_type (nx_type_to_iree_type s) ≢ s)
      × (nx_type_to_iree_type (iree_type_to_nx_type c) ≡ type_none)
unfolding nx_type_to_iree_type iree_type_to_nx_type text_eq
signed_lost s c =
    Each-Names
      (λ t d.
        (iree_type_to_nx_type (nx_type_to_iree_type t) ≢ t)
        × (nx_type_to_iree_type (iree_type_to_nx_type d) ≡ type_none))
      signed_types s c (ground arith)
