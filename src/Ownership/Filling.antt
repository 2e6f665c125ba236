-- ===== src/Ownership/Filling.antt =====
-- The host copy that `serialize` makes of data on a device: the block is filled within its bounds, and
-- nothing else is touched.
use nx_iree.Base.{
  ℕ, suc, zero, ◌≤◌, ◌≡◌, ◌≢◌, inl, inr, Option, some, List, [], ◌∷◌, Bool, true, false, Bool-cases,
  arith, length, take, drop, map, ◌++◌, length-map, ◌==◌, leb,
}
use nx_iree.Machine.{Ptr, null, Cell, Tensor, World}
use nx_iree.Machine.Post.{Returns, returns, Returns-bind}
use nx_iree.Machine.Memory.{store, determined}
use nx_iree.Api.{Api}
use nx_iree.Tensor.{read_buffer, transfer_d2h, run_if_cuda_enabled, size_max}
use nx_iree.Ownership.Memory.{length-overwritten}

-- A block of `n` bytes at `p`.
abbrev pub Sized : Ptr → ℕ → World → Type 0
Sized p n w = (b : List Cell) × (w.blocks p ≡ some b) × (length b ≡ n)

-- The tensor at `this` is `t`, the block at `p` has `n` bytes, and all else is as it was in `old`.
pub record Filling (old : World) (this : Ptr) (t : Tensor) (p n : ℕ) (w : World) : Type 0 where
  pub here : w.tensors this ≡ some t
  pub sized : Sized p n w
  pub elsewhere : (q : Ptr) → q ≢ p → w.blocks q ≡ old.blocks q
  pub others : (q : Ptr) → q ≢ this → w.tensors q ≡ old.tensors q

length-take_le : (n : ℕ) (b : List ℕ) → length (take n b) ≤ n
length-take_le zero b = omega arith
length-take_le (suc n) [] = omega arith
length-take_le (suc n) (x ∷ b) = omega (arith, length-take_le n b)

module _ (old : World) (this p n : ℕ) (t : Tensor) (ne : p ≢ null) where
  not_null : (p == null) ≡ false
  not_null = ground arith

  room : (cs b : List Cell) → length b ≡ n → length cs ≤ n → leb (length cs) (length b) ≡ true
  room cs b len le = ground (arith, len, le)

  store-Filling :
      (cs : List Cell) (w : World)
      → length cs ≤ n
      → Filling old this t p n w
      → Returns (λ _ v. Filling old this t p n v) (store p cs w)
  unfolding store
  store-Filling cs w le r = elim (Bool-cases (length cs == 0)) [
    | inl e ↦ rw e (returns r)
    | inr e ↦
        let (b, here, len) = r.sized in
        rw (e, not_null, here, room cs b len le)
          (returns (record {
            here = r.here;
            sized = (
              cs ++ drop (length cs) b,
              ground arith,
              ground (arith, length-overwritten cs b, len),
            );
            elsewhere = λ q apart. ground (arith, r.elsewhere q);
            others = r.others;
          }))
  ]

  module _ (api : Api) (host : api.cuda_enabled ≡ false) where
    run_if_cuda_enabled-Filling :
        (test : Bool) (d : Ptr) (w : World)
        → Filling old this t p n w
        → Returns (λ _ v. Filling old this t p n v) (run_if_cuda_enabled api test (some d) w)
    unfolding run_if_cuda_enabled determined
    run_if_cuda_enabled-Filling test d w r = rw host (returns r)

    transfer_d2h-Filling :
        (d b : Ptr) (w : World)
        → Filling old this t p n w
        → Returns (λ _ v. Filling old this t p n v) (transfer_d2h api d b p n w)
    unfolding transfer_d2h
    transfer_d2h-Filling d b w r =
        Returns-bind
          (store-Filling (map some (take n (api.transfer_d2h w.trace d b n).1)) _
            (omega (
              arith,
              length-map {B = Cell} some (take n (api.transfer_d2h w.trace d b n).1),
              length-take_le n (api.transfer_d2h w.trace d b n).1,
            ))
            (record { here = r.here; sized = r.sized; elsewhere = r.elsewhere; others = r.others }))
          λ _ v k. returns k

    pub read_buffer-Filling :
        (device : Option Ptr) (view : Ptr) (w : World)
        → (view ≢ null → (d : Ptr) × (device ≡ some d))
        → (n == size_max) ≡ false
        → Filling old this t p n w
        → Returns (λ _ v. Filling old this t p n v) (read_buffer api device view p n w)
    unfolding read_buffer determined
    read_buffer-Filling device view w placed nm r = elim (Bool-cases (view == null)) [
      | inl e ↦ rw e (returns r)
      | inr e ↦
          let (d, on) = placed (ground arith) in
          rw (e, on, nm)
            (Returns-bind (run_if_cuda_enabled-Filling _ d w r)
              λ _ v k. transfer_d2h-Filling d _ v k)
    ]
