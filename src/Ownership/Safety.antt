-- ===== src/Ownership/Safety.antt =====
-- What the invariant gives for the tensors of a library that runs.
use mathlib.Core.Option
use nx_iree.Base.{
  ap, subst, ◌⊎◌, Option-cases, suc, ◌≡◌, refl, ◌≢◌, inl, inr, Option, none, some, List, ◌∷◌, Bool,
  false, Bool-cases, arith, length, replicate, length-replicate, ◌==◌,
}
use nx_iree.Machine.{host_alloc, update, pure, Ptr, null, Cell, Tensor, World, ◌>>=◌}
use nx_iree.Machine.Post.{Safe, Returns, returns, Returns-bind, to_Safe}
use nx_iree.Machine.Laws.{load-all, malloc-ok}
use nx_iree.Machine.Memory.{get_tensor, set_tensor, malloc, load}
use nx_iree.Api.{Api}
use nx_iree.Tensor.{serialize, fetch_data, size_max, wire}
use nx_iree.Tensor.Lifetime.{with_copy}
use nx_iree.Ownership.Heap.{Owned}
use nx_iree.Ownership.Filling.{Filling, read_buffer-Filling}
use nx_iree.Ownership.Store.{
  Content, content, store_of, Method, deallocated_at, deleted_at, serialized_at, target, run,
  Becomes, Step, sent, fetched, refused, only_here, deallocate-Step, delete_tensor-Step,
}

there :
    (p : Ptr) (c : Content) (w : World)
    → store_of w p ≡ some c
    → (t : Tensor) × (w.tensors p ≡ some t) × (t.size ≡ c.members.size)
there p c w found = elim (Option-cases (w.tensors p)) [
  | inl e ↦ absurd (ground (arith, found))
  | inr (t, e) ↦ (t, e, ground (arith, found))
]

module _ (api : Api) (host : api.cuda_enabled ≡ false) (this : Ptr) (t : Tensor) (w : World)
    (h : Owned w) (here : w.tensors this ≡ some t) where
  abbrev with_data : Ptr → Tensor
  with_data p = record t { data_ptr = p }

  abbrev bare : Tensor
  bare = record t { data_ptr = null }

  -- Where `serialize` is once the host copy is filled.
  abbrev Filled : World → Type 0
  Filled = Filling w this (with_data (suc w.last)) (suc w.last) t.size

  fresh : (suc w.last == null) ≡ false
  fresh = ground arith

  fresh-apart :
      (q : Ptr) (u : Tensor) → w.tensors q ≡ some u → u.data_ptr ≢ null → u.data_ptr ≢ suc w.last
  fresh-apart q u there nn = λ x. ground (arith, h.held q u there, h.fresh_block (suc w.last))

  -- What the store becomes.
  Filled-Becomes :
      (v : World) (b : List Cell)
      → Filled v
      → v.blocks (suc w.last) ≡ some b
      → Becomes (store_of w) this (some (record { members = bare; bytes = some b })) (store_of v)
  Filled-Becomes v b f there =
      subst (λ c. Becomes (store_of w) this c (store_of v)) (rw (f.here, fresh, there) refl)
        (only_here this w v f.others λ q u at ne nn. f.elsewhere u.data_ptr (fresh-apart q u at nn))

  abbrev denied_memory : World
  denied_memory = record w {
    trace = host_alloc t.size ∷ w.trace;
    tensors = update w.tensors this (some bare);
  }

  -- A tensor without data is left without, and the store as it was.
  denied-Becomes :
      Becomes
        (store_of w)
        this
        (some (record { members = bare; bytes = none }))
        (store_of denied_memory)
  denied-Becomes =
      subst (λ c. Becomes (store_of w) this c (store_of denied_memory)) (ground arith)
        (only_here this w denied_memory (λ q ne. ground arith) λ q u at ne nn. refl)

  -- What `fetch_data` leaves: the copy, or nothing.
  abbrev Fetched : Bool → World → Type 0
  Fetched done v =
      Filled v
      ⊎ ((done ≡ false)
          × Becomes (store_of w) this (some (record { members = bare; bytes = none })) (store_of v))

  fetch_data-Fetched : (t.size == size_max) ≡ false → Returns Fetched (fetch_data api this w)
  unfolding fetch_data get_tensor set_tensor malloc
  fetch_data-Fetched small = elim (Bool-cases (api.can_alloc w.trace t.size)) [
    | inl granted ↦
        rw (here, malloc-ok api.can_alloc t.size w granted, fresh)
          (Returns-bind
            (read_buffer-Filling w this (suc w.last) t.size (with_data (suc w.last)) (ground arith)
              api host t.device t.buffer_view (with_copy this t (replicate t.size none) w)
              (h.placed this t here) small
              (record {
                here = ground arith;
                sized = (
                  replicate t.size none,
                  ground arith,
                  length-replicate {0} {A = Cell} t.size none,
                );
                elsewhere = λ q ne. ground arith;
                others = λ q ne. ground arith;
              }))
            λ s v k. returns (inl k))
    | inr denied ↦ rw (here, denied) (returns (inr (refl, denied-Becomes)))
  ]

  abbrev held_here : Content
  held_here = content w.blocks t

  here_in_store : store_of w this ≡ some held_here
  here_in_store = ap (Option.map (content w.blocks)) here

  bare_in_store :
      t.data_ptr ≡ null → store_of w this ≡ some (record { members = bare; bytes = none })
  bare_in_store e = rw here (rw e refl)

  -- The answer, once `u` is the tensor with a copy `b`.
  sent-Returns :
      (P : Option (List Cell) → World → Type 0) (p : Ptr) (b : List Cell) (v : World)
      → p ≢ null
      → v.tensors this ≡ some (with_data p)
      → v.blocks p ≡ some b
      → length b ≡ t.size
      → P (some (wire bare b)) v
      → Returns P
          ((do u ← get_tensor this; bytes ← load u.data_ptr u.size; pure (some (wire u bytes))) v)
  unfolding get_tensor wire
  sent-Returns P p b v ne there hb len good =
      rw (there, load-all p t.size b v ne hb len) (returns good)

  serialize-Step :
      (t.size == size_max) ≡ false
      → Returns
          (λ r v. Step (store_of w) (store_of v) (serialized_at this) r)
          (serialize api this w)
  unfolding serialize get_tensor
  serialize-Step small = elim (Bool-cases (t.data_ptr == null)) [
    | inl e ↦
        let found = bare_in_store (ground arith) in
        rw (here, e)
          (Returns-bind (fetch_data-Fetched small) λ done v k. elim k [
            | inl f ↦
                let (b, hb, len) = f.sized in
                elim (Bool-cases done) [
                  | inl x ↦ rw x (
                      sent-Returns _ (suc w.last) b v (ground arith) f.here hb len
                        (fetched this _ b _ found refl len (Filled-Becomes v b f hb) (inr refl)))
                  | inr x ↦ rw x (
                      returns
                        (fetched this _ b none found refl len (Filled-Becomes v b f hb) (inl refl)))
                ]
            | inr (x, kept) ↦ rw x (returns (refused this _ found refl kept))
          ])
    | inr e ↦
        let (b, hb, len) = h.held this t here (ground arith) in
        rw (here, e)
          (sent-Returns _ t.data_ptr b w (ground arith) here hb len (
            sent this held_here b here_in_store (rw (e, hb) refl) len (
              subst (λ c. Becomes (store_of w) this c (store_of w)) here_in_store
                (only_here this w w (λ q ne. refl) λ q u at ne nn. refl))))
  ]

-- Each call on a tensor that is there ends as the store allows.
pub run-Step :
    (api : Api) (m : Method) (c : Content) (w : World)
    → Owned w
    → store_of w (target m) ≡ some c
    → c.members.size ≢ size_max
    → api.cuda_enabled ≡ false
    → Safe (λ r v. Step (store_of w) (store_of v) m r) (λ e v. ⊥) (run api m w)
run-Step api (deallocated_at p) c w h found small host =
    let (t, here, size) = there p c w found in to_Safe (deallocate-Step p t w h here)
run-Step api (deleted_at p) c w h found small host =
    let (t, here, size) = there p c w found in to_Safe (delete_tensor-Step p t w h here)
run-Step api (serialized_at p) c w h found small host =
    let (t, here, size) = there p c w found in
    to_Safe (serialize-Step api host p t w h here (ground (arith, size)))
