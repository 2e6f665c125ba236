-- ===== src/Ownership/DataBuffers.antt =====
-- The data buffers of the browser in a session: what `nx_iree_read_buffer` (cmake/src/emscripten_api.cc)
-- answers, shown by `get_data` after further calls of the module.
use nx_iree.Base.{
  ◌-◌, ◌^◌, ℕ, suc, ◌<◌, ◌≤◌, ◌≡◌, ◌≢◌, refl, some, List, map, true, false, length, length-map,
  arith, subst, Bool-cases, Option-cases, inl, inr, ltb,
}
use nx_iree.Machine.{Ptr, null, ok_status, Cell, DataBuffer, Device, Tensor, World, Res, ok}
use nx_iree.Machine.Memory.{get_buffer, set_buffer}
use nx_iree.Machine.Post.{Post, Meets-mono, to_Post}
use nx_iree.Machine.Laws.{load-all}
use nx_iree.Api.{Api, TransfersAll}
use nx_iree.Browser.{Browser}
use nx_iree.Tensor.{deallocate, delete_tensor}
use nx_iree.Tensor.Fetch.{answer}
use nx_iree.Tensor.Lifetime.{deallocated, deallocate_lem, delete_tensor_lem}
use nx_iree.Emscripten.{drop_data_buffer, set_buffer_size, read_data}
use nx_iree.Emscripten.Values.{get_data}
use nx_iree.Emscripten.Reads.{with_buffer, read_answer, full_buffer, read_data-ok}
use nx_iree.Ownership.Heap.{Owned}
use nx_iree.Ownership.Changes.{block-le-last}
use nx_iree.Ownership.Release.{Owned-Holds}
use nx_iree.Ownership.Buffers.{drop_data_buffer-ok}
use nx_iree.Ownership.Leaving.{deallocate_gone}
use nx_iree.Ownership.Growth.{Grown}
use nx_iree.Ownership.Surviving.{Survives}
use nx_iree.Ownership.Sessions.{
  Action, buffer_read, buffer_dropped, size_written, perform_action, Session, Session-Owned,
}
use nx_iree.Ownership.Browsing.{
  Sort, kept, deallocation, deletion, drop, sizing, sort_of, delete_gone, Avoiding, begin, next,
  caught, Avoiding-Session,
}

-- The data buffer at `q`, with its bytes.
abbrev IsHeld : Ptr → DataBuffer → List Cell → World → Type 0
IsHeld q x cells w = (w.buffers q ≡ some x) × (w.blocks x.data_ptr ≡ some cells)

module _ (q : Ptr) (x : DataBuffer) (cells : List Cell) where
  abbrev Holds : {A : Type 0} → Res A → Type 0
  Holds = Post (λ a v. IsHeld q x cells v) (λ e v. IsHeld q x cells v)

  module _ (w : World) (h : Owned w) (held : IsHeld q x cells w) where
    buffer-le-last : q ≤ w.last
    buffer-le-last = elim (Bool-cases (ltb w.last q)) [
      | inl lt ↦ absurd (ground (arith, h.fresh_buffer q, held.0))
      | inr le ↦ ground arith
    ]

    Grown-IsHeld : (v : World) → Grown w v → IsHeld q x cells v
    Grown-IsHeld v g = (
      ground (arith, g.same_buffers q buffer-le-last, held.0),
      ground (arith, g.same_blocks x.data_ptr (block-le-last h x.data_ptr cells held.1), held.1),
    )

    Survives-Holds : {A : Type 0} {r : Res A} → Survives w r → Holds r
    Survives-Holds s = to_Post (Meets-mono s (λ a v g. Grown-IsHeld v g) λ e v g. Grown-IsHeld v g)

    -- A tensor is deallocated; its block is no buffer's.
    deallocated-IsHeld :
        (p : Ptr) (t : Tensor) → w.tensors p ≡ some t → IsHeld q x cells (deallocated p t w)
    deallocated-IsHeld p t here = ground (arith, held.0, held.1, h.alone q p x t held.0 here)

    deallocate-Holds : (p : Ptr) → Holds (deallocate p w)
    deallocate-Holds p = elim (Option-cases (w.tensors p)) [
      | inl gone ↦ rw (deallocate_gone p w gone) tt
      | inr (t, here) ↦
          rw (deallocate_lem p t w (Owned-Holds p t w h here)) (deallocated-IsHeld p t here)
    ]

    delete_tensor-Holds : (p : Ptr) → Holds (delete_tensor p w)
    delete_tensor-Holds p = elim (Option-cases (w.tensors p)) [
      | inl gone ↦ rw (delete_gone p w gone) tt
      | inr (t, here) ↦
          rw (delete_tensor_lem p t w (Owned-Holds p t w h here)) (deallocated-IsHeld p t here)
    ]

    -- Another buffer goes, with its own block.
    drop_data_buffer-Holds : (p : Ptr) → p ≢ q → Holds (drop_data_buffer p w)
    unfolding drop_data_buffer get_buffer
    drop_data_buffer-Holds p other = elim (Option-cases (w.buffers p)) [
      | inl gone ↦ rw gone tt
      | inr (y, here) ↦
          rw (drop_data_buffer-ok p y w h here)
            (ground (arith, held.0), ground (arith, held.1, h.unshared p q y x here held.0))
    ]

    -- The size of another buffer is written.
    set_buffer_size-Holds : (p n : ℕ) → p ≢ q → Holds (set_buffer_size p n w)
    unfolding set_buffer_size get_buffer set_buffer
    set_buffer_size-Holds p n other = elim (Option-cases (w.buffers p)) [
      | inl gone ↦ rw gone tt
      | inr (y, here) ↦ rw here (ground (arith, held.0), held.1)
    ]

module _ (api : Api) (b : Browser) where
  -- The buffer at `q` goes, or its size is written.
  abbrev pub Alters : Ptr → Action b → Type 0
  Alters q (buffer_dropped p) = p ≡ q
  Alters q (size_written p n) = p ≡ q
  Alters q a = ⊥

  action-Holds :
      (q : Ptr) (x : DataBuffer) (cells : List Cell) (a : Action b) (w : World)
      → Owned w
      → IsHeld q x cells w
      → ¬ Alters q a
      → Sort api b w a
      → Holds q x cells (perform_action api b a w)
  unfolding perform_action
  action-Holds q x cells a w h held spared (kept s) = Survives-Holds q x cells w h held s
  action-Holds q x cells a w h held spared (deallocation p) = deallocate-Holds q x cells w h held p
  action-Holds q x cells a w h held spared (deletion p) = delete_tensor-Holds q x cells w h held p
  action-Holds q x cells a w h held spared (drop p) =
      drop_data_buffer-Holds q x cells w h held p spared
  action-Holds q x cells a w h held spared (sizing p n) =
      set_buffer_size-Holds q x cells w h held p n spared

  Avoiding-IsHeld :
      (q : Ptr) (x : DataBuffer) (cells : List Cell) (v u : World)
      → Session api b v
      → IsHeld q x cells v
      → Avoiding api b (Alters q) v u
      → IsHeld q x cells u
  Avoiding-IsHeld q x cells v u s held begin = held
  Avoiding-IsHeld q x cells v u s held (next {u = w} a t spared run) =
      let h = Session-Owned api b (Avoiding-Session api b s t) in
      subst (Holds q x cells) run (
        action-Holds q x cells a w h (Avoiding-IsHeld q x cells v w s held t) spared
          (sort_of api b a w h))
  Avoiding-IsHeld q x cells v u s held (caught {u = w} a t spared run) =
      let h = Session-Owned api b (Avoiding-Session api b s t) in
      subst (Holds q x cells) run (
        action-Holds q x cells a w h (Avoiding-IsHeld q x cells v w s held t) spared
          (sort_of api b a w h))

  get_data-IsHeld :
      (q : Ptr) (x : DataBuffer) (cells : List Cell) (w : World)
      → x.data_ptr ≢ null
      → x.size ≡ length cells
      → IsHeld q x cells w
      → get_data api b q w ≡ ok cells w
  unfolding get_data get_buffer
  get_data-IsHeld q x cells w ne len held =
      ground (arith, held.0, load-all x.data_ptr (length cells) cells w ne held.1 refl, len)

  -- In every state of a session of the browser, without CUDA, a `nx_iree_read_buffer` that
  -- succeeds answers with OK and a new data buffer, if the memory is granted and successful
  -- copies write all they were asked for, and if these are fewer than 2 ^ 32 - 1; and after any
  -- further actions by which this buffer is not let go and its size is not written, also such
  -- as end by an exception, `get_data` of it shows the bytes that the device answered.
  pub Session-get_data :
      (device p d n : ℕ) (o : Device) (t : Tensor) (w : World)
      → Session api b w
      → api.cuda_enabled ≡ false
      → TransfersAll api
      → w.tensors p ≡ some t
      → w.devices device ≡ some o
      → o.ref ≡ some d
      → t.buffer_view ≢ null
      → n < 2 ^ 32 - 1
      → api.can_alloc w.trace n ≡ true
      → (answer api d t.buffer_view (with_buffer api n w) n).0 ≡ ok_status
      → (v : World) × (read_data api device p n w ≡ ok (ok_status, some (suc (suc w.last))) v)
        × ((u : World)
            → Avoiding api b (Alters (suc (suc w.last))) v u
            → get_data api b (suc (suc w.last)) u ≡ ok (map some (read_answer api d t n w)) u)
  unfolding perform_action
  Session-get_data device p d n o t w s host whole here at ref viewed small granted fine =
      let v = full_buffer api d t n w in
      let x : DataBuffer = record { data_ptr = suc w.last; size = n } in
      let (run, len) =
        read_data-ok api device p d n o t w host whole here at ref viewed (omega arith) granted
          fine in
      let after : Session api b v = Session.next (buffer_read device p n) s (rw run refl) in
      (
        v,
        run,
        λ u spared.
            get_data-IsHeld (suc (suc w.last)) x (map some (read_answer api d t n w)) u
              (omega arith) (omega (arith, len, length-map some (read_answer api d t n w)))
              (Avoiding-IsHeld (suc (suc w.last)) x (map some (read_answer api d t n w)) v u after
                (ground arith, ground arith) spared),
      )
