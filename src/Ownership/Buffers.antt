-- ===== src/Ownership/Buffers.antt =====
-- Data buffers of the browser in the invariant of host memory.
use nx_iree.Base.{
  refl, subst, sym, ◌∙◌, List, ℕ, ◌≡◌, ◌≢◌, none, some, Option-cases, inl, inr, arith, Bool-cases,
  ◌==◌,
}
use nx_iree.Machine.{Cell, Ptr, null, DataBuffer, World, ok, update}
use nx_iree.Machine.Memory.{new_buffer, get_buffer, set_buffer, free_buffer, free, get_device}
use nx_iree.Emscripten.{drop_data_buffer, set_buffer_size}
use nx_iree.Ownership.Heap.{IsOwned, Owned, Blocks, Tensors, Buffers}
use nx_iree.Ownership.Changes.{bump, drop_block}
use nx_iree.Ownership.Rules.{Kept, Keeps, Shape, Holds, ends, faults}
use nx_iree.Ownership.Ready.{IsReady, Readied}

module _ {blocks : Blocks} {tensors : Tensors} {buffers : Buffers} {last : Ptr}
    (h : IsOwned blocks tensors buffers last) (p : Ptr) where
  drop_buffer : IsOwned blocks tensors (update buffers p none) last
  drop_buffer = record {
    held = h.held;
    apart = h.apart;
    placed = h.placed;
    real = λ q x e. h.real q x (ground arith);
    filled = λ q x e. h.filled q x (ground arith);
    alone = λ q r x t e e'. h.alone q r x t (ground arith) e';
    unshared = λ q r x y e e' same. h.unshared q r x y (ground arith) (ground arith) same;
    fresh_block = h.fresh_block;
    fresh_tensor = h.fresh_tensor;
    fresh_buffer = λ q lt. ground (arith, h.fresh_buffer q);
  }

-- A new buffer takes the block.
pub new_buffer-Ready :
    {n : ℕ} (b : DataBuffer) (w : World)
    → IsReady b.data_ptr n w
    → b.data_ptr ≢ null
    → Kept (new_buffer b w)
unfolding new_buffer
new_buffer-Ready b w r real_data = ends (
    let h = bump r.owned in
    record {
      held = h.held;
      apart = h.apart;
      placed = h.placed;
      real = λ q x e. ground (arith, h.real q x);
      filled = λ q x e. ground (arith, h.filled q x, r.block);
      alone = λ q s x t e e'. ground (arith, h.alone q s x t, r.free s t);
      unshared = λ q s x y e e' same.
          ground (arith, h.unshared q s x y, r.unbuffered q x, r.unbuffered s y);
      fresh_block = h.fresh_block;
      fresh_tensor = h.fresh_tensor;
      fresh_buffer = λ q lt. ground (arith, h.fresh_buffer q);
    })

abbrev pub dropped : Ptr → DataBuffer → World → World
dropped p b w = record w {
  blocks = update w.blocks b.data_ptr none;
  buffers = update w.buffers p none;
}

module _ (p : Ptr) (b : DataBuffer) (w : World) (h : Owned w) (here : w.buffers p ≡ some b) where
  -- The destructor frees the block of a buffer that is there.
  pub drop_data_buffer-ok : drop_data_buffer p w ≡ ok tt (dropped p b w)
  unfolding drop_data_buffer get_buffer free free_buffer
  drop_data_buffer-ok = ground (arith, h.real p b here, h.filled p b here)

  dropped-Owned : Owned (dropped p b w)
  dropped-Owned =
      drop_block (drop_buffer h p) b.data_ptr (λ q t e ne. h.alone p q b t here e)
        λ q x e. λ same. ground (arith, h.unshared p q b x here)

pub drop_data_buffer-Kept : (p : Ptr) (w : World) → Owned w → Kept (drop_data_buffer p w)
unfolding drop_data_buffer get_buffer
drop_data_buffer-Kept p w h = elim (Option-cases (w.buffers p)) [
  | inl e ↦ rw e (faults tt)
  | inr (b, e) ↦ rw (drop_data_buffer-ok p b w h e) (ends (dropped-Owned p b w h e))
]

pub get_buffer-Kept : {J : Shape} (p : Ptr) (w : World) → Holds J w → Keeps J (get_buffer p w)
unfolding get_buffer
get_buffer-Kept p w h = elim (Option-cases (w.buffers p)) [
  | inl e ↦ rw e (faults tt)
  | inr (b, e) ↦ rw e (ends h)
]

pub get_device-Ready :
    {p n : ℕ} (d : Ptr) (w : World) → IsReady p n w → Readied p n (get_device d w)
unfolding get_device
get_device-Ready d w r = elim (Option-cases (w.devices d)) [
  | inl e ↦ rw e (faults tt)
  | inr (t, e) ↦ rw e (ends r)
]

-- A block that is in nobody's hands is freed, or is null.
pub free-Ready : {p n : ℕ} (w : World) → IsReady p n w → Kept (free p w)
unfolding free
free-Ready {p} w r = elim (Bool-cases (p == null)) [
  | inl e ↦ rw e (ends r.owned)
  | inr ne ↦
      let (b, held, len) = r.block (ground arith) in
      rw (ne, held)
        (ends (
          drop_block r.owned p (λ q t e nn. r.free q t e (ground arith))
            λ q x e. λ same. ground (arith, r.unbuffered q x)))
]

module _ {blocks : Blocks} {tensors : Tensors} {buffers : Buffers} {last : Ptr} (p n : ℕ)
    (b : DataBuffer) (h : IsOwned blocks tensors buffers last) (here : buffers p ≡ some b) where
  abbrev sized : Buffers
  sized = update buffers p (some (record b { size = n }))

  -- The block of a buffer is the one that it had.
  before :
      (q : Ptr) (x : DataBuffer)
      → sized q ≡ some x
      → (y : DataBuffer) × (buffers q ≡ some y) × (y.data_ptr ≡ x.data_ptr)
  before q x e = elim (Bool-cases (p == q)) [
    | inl i ↦ (b, ground (arith, here), ground (arith, e))
    | inr i ↦ (x, ground (arith, e), refl)
  ]

  -- A size is written.
  resized : IsOwned blocks tensors sized last
  resized = record {
    held = h.held;
    apart = h.apart;
    placed = h.placed;
    real = λ q x e. let (y, at, same) = before q x e in subst (λ d. d ≢ null) same (h.real q y at);
    filled = λ q x e.
        let (y, at, same) = before q x e in
        subst (λ d. (c : List Cell) × (blocks d ≡ some c)) same (h.filled q y at);
    alone = λ q r x t e e'.
        let (y, at, same) = before q x e in
        subst (λ d. t.data_ptr ≢ d) same (h.alone q r y t at e');
    unshared = λ q r x z e e' eq.
        let (y, at, same) = before q x e in
        let (u, at', same') = before r z e' in h.unshared q r y u at at' (same ∙ eq ∙ sym same');
    fresh_block = h.fresh_block;
    fresh_tensor = h.fresh_tensor;
    fresh_buffer = λ q lt. elim (Bool-cases (p == q)) [
      | inl i ↦ absurd (ground (arith, here, h.fresh_buffer q lt))
      | inr i ↦ ground (arith, h.fresh_buffer q lt)
    ];
  }

pub set_buffer_size-Kept : (p n : ℕ) (w : World) → Owned w → Kept (set_buffer_size p n w)
unfolding set_buffer_size get_buffer set_buffer
set_buffer_size-Kept p n w h = elim (Option-cases (w.buffers p)) [
  | inl e ↦ rw e (faults tt)
  | inr (b, e) ↦ rw e (ends (resized p n b h e))
]
