-- ===== src/Emscripten/Runs.antt =====
-- `nx_iree_call` of the API for the browser on a library that does not fail.
use nx_iree.Base.{
  length-map, ℕ, suc, ◌≤◌, ◌≡◌, ◌≢◌, refl, none, some, List, [], ◌∷◌, Option, map, false, length,
  length-replicate, replicate, arith,
}
use nx_iree.Machine.{
  Ptr, null, ok_status, Cell, DataBuffer, Device, Tensor, Trace, World, Status, ok, update,
}
use nx_iree.Machine.Post.{Returns, returns, Returns-bind, Returns-mono}
use nx_iree.Machine.Memory.{get_tensor, set_tensor, get_device, get_buffer, determined}
use nx_iree.Machine.Laws.{malloc-ok, load-all}
use nx_iree.Api.{Api}
use nx_iree.Tensor.Fetch.{answer, transferred, read_buffer-ok, buffer_of}
use nx_iree.Call.Obliging.{Obliging, AllInputs}
use nx_iree.Call.Remote.{
  Invocation, program_outputs, Delivering, Tensors, IsRemote, Remotes, nil, cons, Remotes-frame,
  Delivered, call-Delivered,
}
use nx_iree.Emscripten.{
  all_bytes, buffer_bytes, fetch_output, fetch_outputs, wrap_outputs, run_call,
}
use nx_iree.Emscripten.Reads.{output_size, unread}

-- The data buffer at `p` holds these bytes.
pub record Loaded (p : Ptr) (x : DataBuffer) (code : List ℕ) (w : World) : Type 0 where
  pub here : w.buffers p ≡ some x
  pub real : x.data_ptr ≢ null
  pub held : w.blocks x.data_ptr ≡ some (map some code)
  pub whole : length code ≡ x.size

all_bytes-map : (code : List ℕ) → all_bytes (map some code) ≡ some code
unfolding all_bytes
all_bytes-map [] = refl
all_bytes-map (c ∷ code) = rw (all_bytes-map code) refl

buffer_bytes-ok :
    (p : Ptr) (x : DataBuffer) (code : List ℕ) (w : World)
    → Loaded p x code w
    → buffer_bytes p w ≡ ok code w
unfolding buffer_bytes get_buffer determined
buffer_bytes-ok p x code w l = rw (
  l.here,
  load-all x.data_ptr x.size (map some code) w l.real l.held
      (omega (arith, l.whole, length-map some code)),
  all_bytes-map code,
)

module _ (api : Api) (d : Ptr) where
  -- The tensor at `p` is `t` but for a host copy of its size, with the bytes that the device
  -- answered.
  pub record IsFetched (tensors : Tensors) (blocks : Ptr → Option (List Cell)) (p : Ptr)
      (t : Tensor) : Type 0 where
    pub tensor : Tensor
    pub output : tensor ≡ record t { size = tensor.size; data_ptr = tensor.data_ptr }
    pub here : tensors p ≡ some tensor
    pub copied : tensor.data_ptr ≢ null
    pub asked : Trace
    pub bytes : List ℕ
    pub answered :
        bytes ≡ (api.transfer_d2h asked d (api.view_buffer asked tensor.buffer_view) tensor.size).1
    pub held : blocks tensor.data_ptr ≡ some (map some bytes)
    pub whole : length bytes ≡ tensor.size

  abbrev pub AllFetched : Tensors → (Ptr → Option (List Cell)) → List Ptr → List Tensor → Type 0
  AllFetched tensors blocks [] ts = ts ≡ []
  AllFetched tensors blocks (p ∷ ps) [] = ⊥
  AllFetched tensors blocks (p ∷ ps) (t ∷ ts) =
      IsFetched tensors blocks p t × AllFetched tensors blocks ps ts

  -- The bytes that the device answers for the tensor `t` at `p`.
  abbrev fetched_bytes : Ptr → Tensor → World → List ℕ
  fetched_bytes p t w = (answer api d t.buffer_view (unread api p t w) (output_size api t w)).1

  abbrev fetched : Ptr → Tensor → World → World
  fetched p t w =
      record (transferred api d t.buffer_view (unread api p t w) (output_size api t w)) {
        blocks =
            update (unread api p t w).blocks (suc w.last) (some (map some (fetched_bytes p t w)));
      }

  module _ (host : api.cuda_enabled ≡ false) (dl : Delivering api) (device : Ptr) (o : Device)
      (ref : o.ref ≡ some d) where
    fetch_output-ok :
        (p : Ptr) (t : Tensor) (w : World)
        → w.devices device ≡ some o
        → w.tensors p ≡ some t
        → IsRemote d t
        → fetch_output api device p w ≡ ok tt (fetched p t w)
    unfolding fetch_output get_tensor set_tensor get_device
    fetch_output-ok p t w at here r = ground (
      arith,
      r.viewed,
      malloc-ok api.can_alloc (output_size api t w) w (dl.grants w.trace (output_size api t w)),
      dl.buffers w.trace (api.view_buffer w.trace t.buffer_view),
      dl.copies (unread api p t w).trace d (buffer_of api d t.buffer_view (unread api p t w))
          (output_size api t w),
      length-replicate {0} {A = Cell} (output_size api t w) none,
      read_buffer-ok api d t.buffer_view (unread api p t w) (suc w.last) (output_size api t w)
          (replicate (output_size api t w) none) host dl.whole,
    )

    fetch_outputs-Returns :
        (l : Ptr) (ps : List Ptr) (ts : List Tensor) (w : World)
        → w.devices device ≡ some o
        → Remotes d w.tensors l ps ts
        → Returns
            (λ u v.
              AllFetched v.tensors v.blocks ps ts
              × ((q : Ptr) → q ≤ l → v.tensors q ≡ w.tensors q)
              × ((q : Ptr) → q ≤ w.last → v.blocks q ≡ w.blocks q))
            (fetch_outputs api device ps w)
    unfolding fetch_outputs
    fetch_outputs-Returns l [] [] w at nil = returns (refl, (λ q le. refl), λ q le. refl)
    fetch_outputs-Returns l [] (t ∷ ts) w at rs = elim rs [ ]
    fetch_outputs-Returns l (p ∷ ps) [] w at rs = elim rs [ ]
    fetch_outputs-Returns l (p ∷ ps) (t ∷ ts) w at (cons lt here r rs) =
        rw (fetch_output-ok p t w at here r) (
          Returns-mono
            (fetch_outputs-Returns p ps ts (fetched p t w) at
              (Remotes-frame rs λ q h. ground arith))
            λ u v (all, same, kept). (
              (
                record {
                  tensor = record t { size = output_size api t w; data_ptr = suc w.last };
                  output = refl;
                  here = ground (arith, same p);
                  copied = ground arith;
                  asked = (unread api p t w).trace;
                  bytes = fetched_bytes p t w;
                  answered = refl;
                  held = ground (arith, kept (suc w.last));
                  whole = dl.whole _ _ _ _ (dl.copies _ _ _ _);
                },
                all,
              ),
              (λ q le. ground (arith, same q)),
              λ q le. ground (arith, kept q),
            ))

    wrap_outputs-Returns :
        (n : ℕ) (oblig : Obliging api n) (w : World) (r : Status × Option (List Ptr)) (v : World)
        → w.devices device ≡ some o
        → Delivered api n oblig dl d w r v
        → Returns
            (λ ps u.
              (length ps ≡ n)
              × ((x : Invocation) × AllFetched u.tensors u.blocks ps (program_outputs api d n x)))
            (wrap_outputs api device r.1 v)
    unfolding wrap_outputs
    wrap_outputs-Returns n oblig w r v at m = rw m.given (
        Returns-bind
          (fetch_outputs-Returns 0 m.results (program_outputs api d n m.invocation) v
            (rw m.devices_kept at) m.remotes)
          λ x u (all, same, kept). returns (m.count, (m.invocation, all)))

    pub run_call-AllFetched :
        (n vm bytecode : ℕ) (x : DataBuffer) (code : List ℕ) (inputs : List Ptr) (w : World)
        → Obliging api n
        → w.devices device ≡ some o
        → Loaded bytecode x code w
        → AllInputs w.tensors w.blocks inputs
        → Returns
            (λ r v.
              (r.0 ≡ ok_status)
              × (length r.1 ≡ n)
              × ((x : Invocation) × AllFetched v.tensors v.blocks r.1 (program_outputs api d n x)))
            (run_call api vm device bytecode inputs w)
    unfolding run_call get_device determined
    run_call-AllFetched n vm bytecode x code inputs w oblig at loaded h =
        rw (at, ref, buffer_bytes-ok bytecode x code w loaded)
          (Returns-bind (call-Delivered api n oblig dl vm d o.driver_name code inputs w h) λ r v m.
            Returns-bind (wrap_outputs-Returns n oblig w r v at m)
              λ ps u g. returns (m.fine, g.0, g.1))
