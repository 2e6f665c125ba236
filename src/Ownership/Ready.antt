-- ===== src/Ownership/Ready.antt =====
-- A block that was just allocated and belongs to no tensor yet.
use nx_iree.Base.{
  ◌*◌, ◌^◌, ℕ, suc, ◌≡◌, refl, sym, ◌≢◌, inl, inr, Option, none, some, List, ◌++◌, Bool, Bool-cases,
  length, length-replicate, drop, replicate, arith, ◌==◌, leb, ltb, ◌&&◌,
}
use nx_iree.Machine.{Ptr, null, Cell, Tensor, DataBuffer, Trace, World, Res, M, and_then}
use nx_iree.Machine.Memory.{malloc, operator_new, store, split_at, determined, new_tensor}
use nx_iree.Api.{Api}
use nx_iree.Tensor.{resize_dims}
use nx_iree.Ownership.Heap.{IsOwned, Owned}
use nx_iree.Ownership.Changes.{
  add_block, put_block, put_tensor, bump, fresh-Spared, fresh-unbuffered,
}
use nx_iree.Ownership.Rules.{ends, stops, faults, Run, Run-bind, Kept}
use nx_iree.Ownership.Memory.{length-overwritten}

-- The block of `n` bytes at `p`, if `p` is not null, is in nobody's hands.
pub record IsReady (p : Ptr) (n : ℕ) (w : World) : Type 0 where
  pub owned : Owned w
  pub block : p ≢ null → (b : List Cell) × (w.blocks p ≡ some b) × (length b ≡ n)
  pub unbuffered : (q : Ptr) (b : DataBuffer) → w.buffers q ≡ some b → p ≢ b.data_ptr
  pub free : (q : Ptr) (u : Tensor) → w.tensors q ≡ some u → p ≢ null → u.data_ptr ≢ p

abbrev pub Readied : {A : Type 0} → Ptr → ℕ → Res A → Type 0
Readied p n = Run IsOwned (λ a v. IsReady p n v)

pub Ready-bind :
    {A B : Type 0} {p : Ptr} {n : ℕ} {r : Res A} {f : A → M B}
    → Readied p n r
    → ((a : A) (w : World) → IsReady p n w → Kept (f a w))
    → Kept (and_then r f)
Ready-bind k g = Run-bind k g

pub malloc-Ready :
    (c : Trace → ℕ → Bool) (n : ℕ) (w : World)
    → Owned w
    → Run IsOwned (λ p v. IsReady p n v) (malloc c n w)
unfolding malloc
malloc-Ready c n w h = elim (Bool-cases (c w.trace n)) [
  | inl e ↦ rw e (
      ends (record {
        owned = add_block h (replicate n none);
        block = λ ne. (replicate n none, ground arith, length-replicate {0} {A = Cell} n none);
        unbuffered = fresh-unbuffered h;
        free = λ q u there ne. fresh-Spared h (suc q) q u there (omega arith) ne;
      }))
  | inr e ↦ rw e (
      ends (record {
        owned = h;
        block = λ ne. absurd (ne refl);
        unbuffered = λ q b there. λ same. h.real q b there (sym same);
        free = λ q u there ne. absurd (ne refl);
      }))
]

pub operator_new-Ready :
    (c : Trace → ℕ → Bool) (n : ℕ) (w : World)
    → Owned w
    → Run IsOwned (λ q v. IsReady q n v) (operator_new c n w)
unfolding operator_new
operator_new-Ready c n w h =
    Run-bind (malloc-Ready c n w h) λ q v r. elim (Bool-cases (q == null)) [
      | inl e ↦ rw e (stops r.owned)
      | inr e ↦ rw e (ends r)
    ]

module _ {p : Ptr} {n : ℕ} where
  -- Reading a buffer and logging leave the block as it is.
  pub split_at-Ready :
      (k : ℕ) (b : List Cell) (w : World) → IsReady p n w → Readied p n (split_at k b w)
  unfolding split_at
  split_at-Ready k b w r = elim (Bool-cases (leb k (length b))) [
    | inl e ↦ rw e (ends r)
    | inr e ↦ rw e (faults tt)
  ]

  pub determined-Ready :
      {A : Type 0} (a : Option A) (w : World) → IsReady p n w → Readied p n (determined a w)
  unfolding determined
  determined-Ready none w r = (faults tt)
  determined-Ready (some a) w r = ends r

  pub resize_dims-Ready :
      (api : Api) (k : ℕ) (w : World) → IsReady p n w → Readied p n (resize_dims api k w)
  unfolding resize_dims
  resize_dims-Ready api k w r =
      elim (Bool-cases (ltb k (2 ^ 60) && api.can_alloc w.trace (k * 8))) [
        | inl e ↦ rw e (
            ends (record {
              owned = r.owned;
              block = r.block;
              unbuffered = r.unbuffered;
              free = r.free;
            }))
        | inr e ↦ rw e (stops r.owned)
      ]

  pub store-Ready : (cs : List Cell) (w : World) → IsReady p n w → Readied p n (store p cs w)
  unfolding store
  store-Ready cs w r = elim (Bool-cases (length cs == 0)) [
    | inl e ↦ rw e (ends r)
    | inr e ↦ rw e (elim (Bool-cases (p == null)) [
      | inl z ↦ rw z (faults tt)
      | inr nz ↦ rw nz (
          let (b, here, len) = r.block (ground arith) in
          rw here (elim (Bool-cases (leb (length cs) (length b))) [
            | inl le ↦ rw le (
                ends (record {
                  owned =
                      put_block r.owned p b (cs ++ drop (length cs) b) here
                        (length-overwritten cs b (ground arith));
                  block = λ ne. (
                    cs ++ drop (length cs) b,
                    ground arith,
                    ground (arith, length-overwritten cs b),
                  );
                  unbuffered = r.unbuffered;
                  free = r.free;
                }))
            | inr gt ↦ rw gt (faults tt)
          ]))
    ])
  ]

  -- The block goes to a new tensor of its size.
  pub new_tensor-Ready :
      (t : Tensor) (w : World)
      → IsReady p n w
      → t.data_ptr ≡ p
      → t.size ≡ n
      → t.buffer_view ≡ null
      → Kept (new_tensor t w)
  unfolding new_tensor
  new_tensor-Ready t w r here size view = ends (
      put_tensor (bump r.owned) (suc w.last) t (omega arith) (record {
        copy = λ ne. ground (arith, r.block);
        spared = λ q u there ne nn. ground (arith, r.free q u there);
        unbuffered = λ q b there. ground (arith, r.unbuffered q b there);
        device = λ ne. ground arith;
      }))

-- A tensor without a host copy, on a device, is in nobody's way.
pub new_tensor-Viewed :
    (t : Tensor) (d : Ptr) (w : World)
    → Owned w
    → t.data_ptr ≡ null
    → t.device ≡ some d
    → Kept (new_tensor t w)
unfolding new_tensor
new_tensor-Viewed t d w h none_here on = ends (
    put_tensor (bump h) (suc w.last) t (omega arith) (record {
      copy = λ ne. absurd (ne none_here);
      spared = λ q u there ne nn. absurd (nn none_here);
      unbuffered = λ q b there. ground (arith, h.real q b there);
      device = λ ne. (d, on);
    }))
