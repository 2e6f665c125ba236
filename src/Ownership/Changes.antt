-- ===== src/Ownership/Changes.antt =====
-- The changes of host memory and of the objects that own it that keep the invariant: of the blocks,
-- as malloc and free make them, and of the tensors of cmake/src/runtime.cc.
use nx_iree.Base.{
  suc, ◌≤◌, ◌≡◌, refl, ◌≢◌, ◌⊎◌, inl, inr, none, some, List, Bool-cases, length, ltb, arith, ◌==◌,
}
use nx_iree.Machine.{Ptr, null, Cell, Tensor, DataBuffer, update}
use nx_iree.Ownership.Heap.{IsOwned, Blocks, Tensors, Buffers, Spared, Fits}

module _ {blocks : Blocks} {tensors : Tensors} {buffers : Buffers} {last : Ptr}
    (h : IsOwned blocks tensors buffers last) where
  pub bump : IsOwned blocks tensors buffers (suc last)
  bump = record {
    held = h.held;
    apart = h.apart;
    placed = h.placed;
    real = h.real;
    filled = h.filled;
    alone = h.alone;
    unshared = h.unshared;
    fresh_block = λ q lt. h.fresh_block q (omega arith);
    fresh_tensor = λ q lt. h.fresh_tensor q (omega arith);
    fresh_buffer = λ q lt. h.fresh_buffer q (omega arith);
  }

  pub put_tensor :
      (p : Ptr) (u : Tensor)
      → p ≤ last
      → Fits blocks tensors buffers p u
      → IsOwned blocks (update tensors p (some u)) buffers last
  put_tensor p u below f = record {
    held = λ q t e ne. ground (arith, h.held q t, f.copy);
    apart = λ q r t v e e' ne same. ground (arith, h.apart q r t v, f.spared q t, f.spared r v);
    placed = λ q t e ne. ground (arith, h.placed q t, f.device);
    real = h.real;
    filled = h.filled;
    alone = λ q r b t e e'. ground (arith, h.alone q r b t, f.unbuffered q b);
    unshared = h.unshared;
    fresh_block = h.fresh_block;
    fresh_tensor = λ q lt. ground (arith, h.fresh_tensor q);
    fresh_buffer = h.fresh_buffer;
  }

  pub put_block :
      (d : Ptr) (b c : List Cell)
      → blocks d ≡ some b
      → length c ≡ length b
      → IsOwned (update blocks d (some c)) tensors buffers last
  put_block d b c e len = record {
    held = λ q t e' ne. elim (Bool-cases (d == t.data_ptr)) [
      | inl x ↦ rw x (c, refl, ground (arith, h.held q t e' ne))
      | inr x ↦ rw x (h.held q t e' ne)
    ];
    apart = h.apart;
    placed = h.placed;
    real = h.real;
    filled = λ q x e'. elim (Bool-cases (d == x.data_ptr)) [
      | inl y ↦ rw y (c, refl)
      | inr y ↦ rw y (h.filled q x e')
    ];
    alone = h.alone;
    unshared = h.unshared;
    fresh_block = λ q lt. ground (arith, h.fresh_block q, h.fresh_block d);
    fresh_tensor = h.fresh_tensor;
    fresh_buffer = h.fresh_buffer;
  }

  pub add_block :
      (b : List Cell) → IsOwned (update blocks (suc last) (some b)) tensors buffers (suc last)
  add_block b = record {
    held = λ q t e ne. elim (Bool-cases (suc last == t.data_ptr)) [
      | inl x ↦ absurd (ground (arith, h.held q t e ne, h.fresh_block (suc last)))
      | inr x ↦ rw x (h.held q t e ne)
    ];
    apart = h.apart;
    placed = h.placed;
    real = h.real;
    filled = λ q x e. elim (Bool-cases (suc last == x.data_ptr)) [
      | inl y ↦ absurd (ground (arith, h.filled q x e, h.fresh_block (suc last)))
      | inr y ↦ rw y (h.filled q x e)
    ];
    alone = h.alone;
    unshared = h.unshared;
    fresh_block = λ q lt. ground (arith, h.fresh_block q);
    fresh_tensor = λ q lt. h.fresh_tensor q (omega arith);
    fresh_buffer = λ q lt. h.fresh_buffer q (omega arith);
  }

  -- The block that was added belongs to nobody.
  pub fresh-Spared : (p : Ptr) → Spared tensors p (suc last)
  fresh-Spared p q u e ne nn = λ x. ground (arith, h.held q u e, h.fresh_block (suc last))

  pub fresh-unbuffered : (q : Ptr) (b : DataBuffer) → buffers q ≡ some b → suc last ≢ b.data_ptr
  fresh-unbuffered q b e = λ x. ground (arith, h.filled q b e, h.fresh_block (suc last))

  pub drop_block :
      (d : Ptr)
      → ((q : Ptr) (u : Tensor) → tensors q ≡ some u → u.data_ptr ≢ null → u.data_ptr ≢ d)
      → ((q : Ptr) (b : DataBuffer) → buffers q ≡ some b → b.data_ptr ≢ d)
      → IsOwned (update blocks d none) tensors buffers last
  drop_block d unowned unbuffered = record {
    held = λ q t e ne. elim (Bool-cases (d == t.data_ptr)) [
      | inl x ↦ absurd (ground (arith, unowned q t e ne))
      | inr x ↦ rw x (h.held q t e ne)
    ];
    apart = h.apart;
    placed = h.placed;
    real = h.real;
    filled = λ q x e. elim (Bool-cases (d == x.data_ptr)) [
      | inl y ↦ absurd (ground (arith, unbuffered q x e))
      | inr y ↦ rw y (h.filled q x e)
    ];
    alone = h.alone;
    unshared = h.unshared;
    fresh_block = λ q lt. ground (arith, h.fresh_block q);
    fresh_tensor = h.fresh_tensor;
    fresh_buffer = h.fresh_buffer;
  }

  pub drop_tensor : (p : Ptr) → IsOwned blocks (update tensors p none) buffers last
  drop_tensor p = record {
    held = λ q t e ne. h.held q t (ground arith) ne;
    apart = λ q r t v e e' ne same. h.apart q r t v (ground arith) (ground arith) ne same;
    placed = λ q t e ne. h.placed q t (ground arith) ne;
    real = h.real;
    filled = h.filled;
    alone = λ q r b t e e'. h.alone q r b t e (ground arith);
    unshared = h.unshared;
    fresh_block = h.fresh_block;
    fresh_tensor = λ q lt. ground (arith, h.fresh_tensor q);
    fresh_buffer = h.fresh_buffer;
  }

  -- A tensor that is there lies below the last pointer.
  pub tensor-le-last : (p : Ptr) (t : Tensor) → tensors p ≡ some t → p ≤ last
  tensor-le-last p t e = elim (Bool-cases (ltb last p)) [
    | inl x ↦ absurd (ground (arith, h.fresh_tensor p))
    | inr x ↦ ground arith
  ]

  pub block-le-last : (q : Ptr) (b : List Cell) → blocks q ≡ some b → q ≤ last
  block-le-last q b e = elim (Bool-cases (ltb last q)) [
    | inl x ↦ absurd (ground (arith, h.fresh_block q))
    | inr x ↦ ground arith
  ]

  -- A tensor that keeps its host copy, or gives it up, still fits.
  pub update-Fits :
      (p : Ptr) (t u : Tensor)
      → tensors p ≡ some t
      → (u.data_ptr ≡ t.data_ptr) ⊎ (u.data_ptr ≡ null)
      → u.size ≡ t.size
      → (u.buffer_view ≡ t.buffer_view) ⊎ (u.buffer_view ≡ null)
      → u.device ≡ t.device
      → Fits blocks tensors buffers p u
  update-Fits p t u here same size view device = record {
    copy = λ ne. ground (arith, h.held p t here);
    spared = λ q v e ne nn. λ x. ground (arith, h.apart q p v t e here);
    unbuffered = λ q b e. ground (arith, h.alone q p b t e here, h.real q b e);
    device = λ ne. ground (arith, h.placed p t here);
  }
