-- ===== src/Ownership/Growth.antt =====
-- What a run may do to the tensors that were there before it, short of giving them up: it leaves their
-- members and their host copies, and may give a host copy to one that has none. It writes to blocks
-- only that it allocates itself.
use nx_iree.Base.{
  ℕ, suc, ◌≤◌, ◌<◌, ◌≡◌, refl, ◌≢◌, inl, inr, Option, none, some, subst, List, Bool, Bool-cases,
  Option-cases, arith, ◌==◌, length, leb,
}
use nx_iree.Machine.{Ptr, null, Cell, Tensor, DataBuffer, Trace, World, update}
use nx_iree.Machine.Memory.{
  malloc, operator_new, store, new_tensor, new_buffer, get_buffer, free_buffer, free,
}
use nx_iree.Machine.Post.{Meets, Meets-bind}
use nx_iree.Emscripten.{drop_data_buffer}
use nx_iree.Ownership.Heap.{Owned, Blocks, Tensors, Buffers}
use nx_iree.Ownership.Rules.{ends, stops, faults, Run, Run-bind, Keeps, Stable}

-- The tensor is there, with a host copy of its own if it had one.
abbrev pub Extended : Tensor → Option Tensor → Type 0
Extended t o =
    (d : Ptr) × (o ≡ some (record t { data_ptr = d })) × (t.data_ptr ≢ null → d ≡ t.data_ptr)

-- A block that the run allocated, or null.
abbrev pub Apart : World → Ptr → Type 0
Apart old p = p ≢ null → old.last < p

pub record IsGrown (old : World) (blocks : Blocks) (tensors : Tensors) (buffers : Buffers)
    (last : Ptr) : Type 0 where
  pub later : old.last ≤ last
  pub same_blocks : (q : Ptr) → q ≤ old.last → blocks q ≡ old.blocks q
  pub same_tensors :
      (q : Ptr) (t : Tensor) → q ≤ old.last → old.tensors q ≡ some t → Extended t (tensors q)
  pub same_buffers : (q : Ptr) → q ≤ old.last → buffers q ≡ old.buffers q
  pub new_buffers :
      (q : Ptr) (b : DataBuffer) → old.last < q → buffers q ≡ some b → Apart old b.data_ptr

abbrev pub Grown : World → World → Type 0
Grown old w = IsGrown old w.blocks w.tensors w.buffers w.last

pub Grown-refl : (w : World) → Owned w → Grown w w
Grown-refl w h = record {
  later = omega arith;
  same_blocks = λ q le. refl;
  same_tensors = λ q t le e. (t.data_ptr, e, λ ne. refl);
  same_buffers = λ q le. refl;
  new_buffers = λ q b lt e. absurd (ground (arith, h.fresh_buffer q));
}

module _ {old : World} where
  pub IsGrown-Stable : Stable (IsGrown old)
  IsGrown-Stable = record {
    raised = λ g. record {
      later = omega (arith, g.later);
      same_blocks = g.same_blocks;
      same_tensors = g.same_tensors;
      same_buffers = g.same_buffers;
      new_buffers = g.new_buffers;
    };
  }

  pub malloc-Grown :
      (c : Trace → ℕ → Bool) (n : ℕ) (w : World)
      → Grown old w
      → Run
          (IsGrown old)
          (λ p v. Grown old v × Apart old p × (v.tensors ≡ w.tensors))
          (malloc c n w)
  unfolding malloc
  malloc-Grown c n w g = elim (Bool-cases (c w.trace n)) [
    | inl e ↦ rw e (
        ends (
          record {
            later = omega (arith, g.later);
            same_blocks = λ q le. ground (arith, g.later, g.same_blocks q);
            same_tensors = g.same_tensors;
            same_buffers = g.same_buffers;
            new_buffers = g.new_buffers;
          },
          λ ne. omega (arith, g.later),
          refl,
        ))
    | inr e ↦ rw e (ends (g, λ ne. absurd (ne refl), refl))
  ]

  pub operator_new-Grown :
      (c : Trace → ℕ → Bool) (n : ℕ) (w : World)
      → Grown old w
      → Run (IsGrown old) (λ p v. Grown old v × Apart old p) (operator_new c n w)
  unfolding operator_new
  operator_new-Grown c n w g = Run-bind (malloc-Grown c n w g) λ p v (k, apart, same).
      elim (Bool-cases (p == null)) [ inl e ↦ rw e (stops k) | inr e ↦ rw e (ends (k, apart)) ]

  put_block-Grown :
      {blocks : Blocks} {tensors : Tensors} {buffers : Buffers} {last : Ptr} (p : Ptr)
      (b : Option (List Cell))
      → old.last < p
      → IsGrown old blocks tensors buffers last
      → IsGrown old (update blocks p b) tensors buffers last
  put_block-Grown p b lt g = record {
    later = g.later;
    same_blocks = λ q le. ground (arith, g.same_blocks q);
    same_tensors = g.same_tensors;
    same_buffers = g.same_buffers;
    new_buffers = g.new_buffers;
  }

  pub put_tensor-Grown :
      {blocks : Blocks} {tensors : Tensors} {buffers : Buffers} {last : Ptr} (p : Ptr) (t : Tensor)
      → old.last < p
      → IsGrown old blocks tensors buffers last
      → IsGrown old blocks (update tensors p (some t)) buffers last
  put_tensor-Grown p t lt g = record {
    later = g.later;
    same_blocks = g.same_blocks;
    same_tensors = λ q u le e.
        let (d, there, kept) = g.same_tensors q u le e in (d, ground (arith, there), kept);
    same_buffers = g.same_buffers;
    new_buffers = g.new_buffers;
  }

  -- A tensor without a host copy may be given one.
  pub fill_tensor-Grown :
      {blocks : Blocks} {tensors : Tensors} {buffers : Buffers} {last : Ptr} (p d : Ptr)
      (t : Tensor)
      → tensors p ≡ some t
      → t.data_ptr ≡ null
      → IsGrown old blocks tensors buffers last
      → IsGrown old blocks (update tensors p (some (record t { data_ptr = d }))) buffers last
  fill_tensor-Grown p d t here bare g = record {
    later = g.later;
    same_blocks = g.same_blocks;
    same_tensors = λ q u le e.
        let (c, there, kept) = g.same_tensors q u le e in
        elim (Bool-cases (p == q)) [
          | inl x ↦
              (d, ground (arith, there, here), λ ne. absurd (ground (arith, there, here, kept ne)))
          | inr x ↦ (c, ground (arith, there), kept)
        ];
    same_buffers = g.same_buffers;
    new_buffers = g.new_buffers;
  }

  pub store-Grown :
      (p : Ptr) (cs : List Cell) (w : World)
      → Apart old p
      → Grown old w
      → Keeps (IsGrown old) (store p cs w)
  unfolding store
  store-Grown p cs w apart g = elim (Bool-cases (length cs == 0)) [
    | inl e ↦ rw e (ends g)
    | inr e ↦ rw e (elim (Bool-cases (p == null)) [
      | inl z ↦ rw z (faults tt)
      | inr nz ↦ rw nz (elim (Option-cases (w.blocks p)) [
        | inl none_there ↦ rw none_there (faults tt)
        | inr (b, there) ↦ rw there (elim (Bool-cases (leb (length cs) (length b))) [
          | inl le ↦ rw le (ends (put_block-Grown p _ (apart (ground arith)) g))
          | inr gt ↦ rw gt (faults tt)
        ])
      ])
    ])
  ]

  pub new_tensor-Grown :
      (t : Tensor) (w : World)
      → Grown old w
      → Run (IsGrown old) (λ p v. Grown old v × (old.last < p)) (new_tensor t w)
  unfolding new_tensor
  new_tensor-Grown t w g = ends (
    put_tensor-Grown (suc w.last) t (omega (arith, g.later)) (IsGrown-Stable.raised g),
    omega (arith, g.later),
  )

  -- The block of a buffer that is made is one that the run allocated.
  pub new_buffer-Grown :
      (b : DataBuffer) (w : World)
      → Apart old b.data_ptr
      → Grown old w
      → Run (IsGrown old) (λ p v. Grown old v × (old.last < p)) (new_buffer b w)
  unfolding new_buffer
  new_buffer-Grown b w apart g = ends (
    record {
      later = omega (arith, g.later);
      same_blocks = g.same_blocks;
      same_tensors = g.same_tensors;
      same_buffers = λ q le. ground (arith, g.same_buffers q, g.later);
      new_buffers = λ q c lt e. elim (Bool-cases (suc w.last == q)) [
        | inl x ↦
            let same : b ≡ c = ground (arith, e) in subst (λ d. Apart old d.data_ptr) same apart
        | inr x ↦ g.new_buffers q c lt (ground (arith, e))
      ];
    },
    omega (arith, g.later),
  )

  -- What is freed is what the run allocated; it may have been freed before.
  pub free-Grown :
      (p : Ptr) (w : World)
      → Apart old p
      → Grown old w
      → Meets (λ x v. Grown old v) (λ x v. Grown old v) (free p w)
  unfolding free
  free-Grown p w apart g = elim (Bool-cases (p == null)) [
    | inl e ↦ rw e (Meets.ends g)
    | inr ne ↦ rw ne (elim (Option-cases (w.blocks p)) [
      | inl gone ↦ rw gone Meets.faults
      | inr (b, there) ↦ rw there (Meets.ends (put_block-Grown p none (apart (ground arith)) g))
    ])
  ]

  -- A buffer that the run made goes with its block.
  pub drop_data_buffer-Grown :
      (p : Ptr) (w : World)
      → old.last < p
      → Grown old w
      → Meets (λ x v. Grown old v) (λ x v. Grown old v) (drop_data_buffer p w)
  unfolding drop_data_buffer get_buffer free_buffer
  drop_data_buffer-Grown p w lt g = elim (Option-cases (w.buffers p)) [
    | inl gone ↦ rw gone Meets.faults
    | inr (b, here) ↦ rw here (
        Meets-bind (free-Grown b.data_ptr w (g.new_buffers p b lt here) g) λ x v k.
          Meets.ends (record {
            later = k.later;
            same_blocks = k.same_blocks;
            same_tensors = k.same_tensors;
            same_buffers = λ q le. ground (arith, k.same_buffers q);
            new_buffers = λ q c le e. k.new_buffers q c le (ground arith);
          }))
  ]
