-- ===== src/Tensor/Truncated.antt =====
-- `IREETensor(char *)` on the beginning of what `serialize` wrote.
use nx_iree.Base.{
  ℕ, zero, suc, ◌+◌, ◌-◌, ◌*◌, ◌≤◌, ◌<◌, ◌≡◌, refl, ◌⊎◌, inl, inr, none, List, [], ◌∷◌, ◌++◌,
  length, length-append, take, replicate, length-replicate, arith, Bool-cases, ltb, ap,
}
use nx_iree.Machine.{Cell, Tensor, World, ok, fault, out_of_bounds}
use nx_iree.Machine.Memory.{split_at, determined}
use nx_iree.Machine.Laws.{store-ok, split_at-append, operator_new-ok, with_block}
use nx_iree.Api.{Api}
use nx_iree.Tensor.Bytes.{le_bytes, le_words, length-le_bytes, length-le_words, le_value-le_bytes}
use nx_iree.Tensor.{wire, deserialize}
use nx_iree.Tensor.RoundTrip.{IsTensor, Allocates, resize_dims-ok}

length-take_le : (n : ℕ) (b : List Cell) → length (take n b) ≤ n
length-take_le zero b = omega arith
length-take_le (suc n) [] = omega arith
length-take_le (suc n) (x ∷ b) = omega (arith, length-take_le n b)

split_at-short :
    (k n : ℕ) (b : List Cell) (w : World) → n < k → split_at k (take n b) w ≡ fault out_of_bounds
unfolding split_at
split_at-short k n b w h = ground (arith, length-take_le n b)

take-append : (a r : List Cell) (m : ℕ) → take (length a + m) (a ++ r) ≡ a ++ take m r
take-append [] r m = ap (λ k. take k r) (zero_add m)
  where
    zero_add : (k : ℕ) → 0 + k ≡ k
    zero_add k = omega arith
take-append (x ∷ a) r m = rw (suc_add (length a) m) (ap (λ ys. x ∷ ys) (take-append a r m))
  where
    suc_add : (k l : ℕ) → suc k + l ≡ suc (k + l)
    suc_add k l = omega arith

split_at-prefix :
    (a r : List Cell) (k m : ℕ) (w : World)
    → length a ≡ k
    → split_at k (take (k + m) (a ++ r)) w ≡ ok (a, take m r) w
split_at-prefix a r k m w h =
    rw (← h, take-append a r m) (split_at-append a (take m r) (length a) w refl)

below_or_beyond : (n k : ℕ) → (n < k) ⊎ ((m : ℕ) × (n ≡ k + m))
below_or_beyond n k = elim (Bool-cases (ltb n k)) [
  | inl e ↦ inl (ground arith)
  | inr e ↦ inr (n - k, ground arith)
]

module _ (api : Api) (t : Tensor) (bytes : List Cell) (granted : Allocates api) (v : IsTensor t)
    (len : length bytes ≡ t.size) where
  length-wire : length (wire t bytes) ≡ 4 + (8 + (t.size + (8 + length t.dims * 8)))
  unfolding wire
  length-wire =
      rw
        (
          length-append (le_bytes 4 t.elem_type)
              (le_bytes 8 t.size ++ (bytes ++ (le_bytes 8 (length t.dims) ++ le_words t.dims))),
          length-append (le_bytes 8 t.size)
              (bytes ++ (le_bytes 8 (length t.dims) ++ le_words t.dims)),
          length-append bytes (le_bytes 8 (length t.dims) ++ le_words t.dims),
          length-append (le_bytes 8 (length t.dims)) (le_words t.dims),
          length-le_bytes 4 t.elem_type,
          length-le_bytes 8 t.size,
          length-le_bytes 8 (length t.dims),
          length-le_words t.dims,
          len,
        )
        (omega arith)

  -- The beginning of what `serialize` writes, short of the whole, is read past its end, for a
  -- tensor whose members fit their fields and with as much data as its size, if memory is
  -- granted: no prefix is taken for a tensor, and none is refused.
  pub deserialize-truncated :
      (n : ℕ) (w : World)
      → n < length (wire t bytes)
      → deserialize api (take n (wire t bytes)) w ≡ fault out_of_bounds
  unfolding deserialize determined wire
  deserialize-truncated n w h = elim (below_or_beyond n 4) [
    | inl e ↦ rw (split_at-short 4 n (wire t bytes) w e) refl
    | inr (m, e) ↦
        rw
          (
            e,
            split_at-prefix (le_bytes 4 t.elem_type) _ 4 m w (length-le_bytes 4 t.elem_type),
            le_value-le_bytes 4 t.elem_type v.type_fits,
          )
          (elim (below_or_beyond m 8) [
            | inl e' ↦ rw (split_at-short 8 m _ w e') refl
            | inr (m', e') ↦
                rw
                  (
                    e',
                    split_at-prefix (le_bytes 8 t.size) _ 8 m' w (length-le_bytes 8 t.size),
                    le_value-le_bytes 8 t.size v.size_fits,
                    operator_new-ok api.can_alloc t.size w (granted _ _),
                  )
                  (elim (below_or_beyond m' t.size) [
                    | inl e'' ↦ rw (split_at-short t.size m' _ _ e'') refl
                    | inr (k, e'') ↦
                        rw
                          (
                            e'',
                            split_at-prefix bytes _ t.size k _ len,
                            store-ok (suc w.last) bytes (replicate t.size none)
                                (with_block w t.size (replicate t.size none)) (ground arith)
                                (ground arith)
                                (omega (arith, len, length-replicate {0} {A = Cell} t.size none)),
                          )
                          (elim (below_or_beyond k 8) [
                            | inl e3 ↦ rw (split_at-short 8 k _ _ e3) refl
                            | inr (j, e3) ↦
                                rw
                                  (
                                    e3,
                                    split_at-prefix (le_bytes 8 (length t.dims)) _ 8 j _
                                        (length-le_bytes 8 (length t.dims)),
                                    le_value-le_bytes 8 (length t.dims)
                                        (omega (arith, v.rank_fits)),
                                    resize_dims-ok api (length t.dims) _ granted v.rank_fits,
                                    split_at-short (length t.dims * 8) j (le_words t.dims) _
                                        (omega (arith, h, length-wire, e, e', e'', e3)),
                                  )
                                  refl
                          ])
                  ])
          ])
  ]
