-- ===== src/Ownership/Shown.antt =====
-- What JavaScript reads of the outputs of `nx_iree_call` (cmake/src/emscripten_api.cc): `toFlatArray`, also
-- after further calls of the module.
use nx_iree.Base.{ℕ, ◌*◌, ◌/◌, ◌≡◌, refl, some, List, [], ◌∷◌, map, Text, length, length-map, arith}
use nx_iree.Machine.{
  Ptr, Status, ok_status, DataBuffer, Device, Tensor, World, Res, ok, stop, fault,
}
use nx_iree.Machine.Post.{Safe, to_Safe}
use nx_iree.Api.{Api}
use nx_iree.Browser.{Browser}
use nx_iree.Call.Obliging.{Obliging}
use nx_iree.Call.Remote.{Delivering}
use nx_iree.Emscripten.{run_call}
use nx_iree.Emscripten.Values.{to_flat_array, array_of}
use nx_iree.Call.Remote.{Invocation, program_outputs}
use nx_iree.Emscripten.Runs.{IsFetched, AllFetched, Loaded, run_call-AllFetched}
use nx_iree.Ownership.Heap.{Owned}
use nx_iree.Ownership.Live.{AllLive, AllLive-AllInputs}
use nx_iree.Ownership.Sessions.{called, perform_action, Session, Session-Owned}
use nx_iree.Ownership.Browsing.{Sparing, Sparing-Persists}
use nx_iree.Ownership.Returned.{IsCopied, Persists-IsCopied, to_flat_array-IsCopied}

-- A buffer of the invariant that holds a bytecode.
Owned-Loaded :
    (bytecode : Ptr) (x : DataBuffer) (code : List ℕ) (w : World)
    → Owned w
    → w.buffers bytecode ≡ some x
    → w.blocks x.data_ptr ≡ some (map some code)
    → x.size ≡ length code
    → Loaded bytecode x code w
Owned-Loaded bytecode x code w h here held len = record {
  here = here;
  real = h.real bytecode x here;
  held = held;
  whole = ground (arith, len);
}

module _ (api : Api) (b : Browser) (d : Ptr) where
  -- A tensor with a host copy of what the device answered, which `toFlatArray` shows as a typed
  -- array, if its type has one and it has whole elements, until it is deallocated or let go.
  abbrev pub IsShown : World → Ptr → Tensor → Type 0
  IsShown v p t =
      (f : IsFetched api d v.tensors v.blocks p t) × ((u : World) (name : Text) (width : ℕ)
        → Sparing api b p v u
        → array_of f.tensor.elem_type ≡ some (name, width)
        → f.tensor.size / width * width ≡ f.tensor.size
        → to_flat_array api b p u ≡ ok (record { constructor = name; bytes = map some f.bytes }) u)

  abbrev pub AllShown : World → List Ptr → List Tensor → Type 0
  AllShown v [] ts = ts ≡ []
  AllShown v (p ∷ ps) [] = ⊥
  AllShown v (p ∷ ps) (t ∷ ts) = IsShown v p t × AllShown v ps ts

  module _ (v : World) (s : Session api b v) where
    IsFetched-IsCopied :
        (p : Ptr) (t : Tensor) (f : IsFetched api d v.tensors v.blocks p t) (u : World)
        → Sparing api b p v u
        → IsCopied f.tensor.elem_type (map some f.bytes) p u
    IsFetched-IsCopied p t f u spared =
        Persists-IsCopied p f.tensor (map some f.bytes) u
          (ground (arith, f.whole, length-map some f.bytes))
          (Sparing-Persists api b p v u _ s spared (ground (arith, f.here, f.copied, f.held)))

    IsFetched-IsShown :
        (p : Ptr) (t : Tensor) → IsFetched api d v.tensors v.blocks p t → IsShown v p t
    IsFetched-IsShown p t f = (
      f,
      λ u name width spared known whole.
          to_flat_array-IsCopied api b f.tensor.elem_type (map some f.bytes) p name width u
            (IsFetched-IsCopied p t f u spared) known
            (ground (arith, whole, f.whole, length-map some f.bytes)),
    )

    AllFetched-AllShown :
        (ps : List Ptr) (ts : List Tensor)
        → AllFetched api d v.tensors v.blocks ps ts
        → AllShown v ps ts
    AllFetched-AllShown [] ts all = all
    AllFetched-AllShown (p ∷ ps) [] all = all
    AllFetched-AllShown (p ∷ ps) (t ∷ ts) (f, all) =
        (IsFetched-IsShown p t f, AllFetched-AllShown ps ts all)

  module _ (device n vm bytecode : ℕ) (inputs : List Ptr) (w : World) (s : Session api b w) where
    -- The outputs of the action `called` are shown in the session that it leads to.
    outputs_shown :
        (r : Res (Status × List Ptr))
        → run_call api vm device bytecode inputs w ≡ r
        → Safe
            (λ r v.
              (r.0 ≡ ok_status)
              × (length r.1 ≡ n)
              × ((x : Invocation) × AllFetched api d v.tensors v.blocks r.1
                    (program_outputs api d n x)))
            (λ e v. ⊥)
            r
        → Safe
            (λ r v.
              (r.0 ≡ ok_status)
              × (length r.1 ≡ n)
              × ((x : Invocation) × AllShown v r.1 (program_outputs api d n x)))
            (λ e v. ⊥)
            r
    unfolding perform_action
    outputs_shown (ok r v) run (fine, len, (x, all)) =
        let t : Session api b v = Session.next (called vm device bytecode inputs) s (rw run refl) in
        (fine, len, (x, AllFetched-AllShown v t r.1 (program_outputs api d n x) all))
    outputs_shown (stop e v) run safe = safe
    outputs_shown (fault x) run safe = safe

  -- In every state of a session of the browser, on a library without CUDA whose calls all
  -- succeed, whose views have as many dimensions as their rank, whose main function returns `n`
  -- values, which grants memory and copies all bytes that it is asked for, and whose sizes,
  -- types and dimensions fit their fields, `nx_iree_call`, with a device object that has a
  -- reference, a data buffer that holds the bytecode, with its length as size, and inputs that
  -- have a host copy and no view, or a view of which no reference was dropped or given away and
  -- that is not given twice, ends with OK and `n` tensors, by no fault and no exception: those
  -- that the library hands out, in their order, for the list of outputs of one
  -- `iree_vm_invoke`; each has a host copy of its size that holds the bytes that the device
  -- answered for its view, and `toFlatArray` of it, after any further actions that do not
  -- deallocate it or let it go, answers with a typed array of these bytes if its type has one
  -- and its elements are whole.
  pub Session-AllShown :
      (device : Ptr) (o : Device) (n vm bytecode : ℕ) (x : DataBuffer) (code : List ℕ)
      (inputs : List Ptr) (w : World)
      → Session api b w
      → Obliging api n
      → Delivering api
      → w.devices device ≡ some o
      → o.ref ≡ some d
      → w.buffers bytecode ≡ some x
      → w.blocks x.data_ptr ≡ some (map some code)
      → x.size ≡ length code
      → AllLive w inputs
      → Safe
          (λ r v.
            (r.0 ≡ ok_status)
            × (length r.1 ≡ n)
            × ((x : Invocation) × AllShown v r.1 (program_outputs api d n x)))
          (λ e v. ⊥)
          (run_call api vm device bytecode inputs w)
  Session-AllShown device o n vm bytecode x code inputs w s oblig dl at ref here held len live =
      let h = Session-Owned api b s in
      outputs_shown device n vm bytecode inputs w s (run_call api vm device bytecode inputs w) refl
        (to_Safe (
          run_call-AllFetched api d oblig.host dl device o ref n vm bytecode x code inputs w oblig
            at (Owned-Loaded bytecode x code w h here held len)
            (AllLive-AllInputs w h inputs live)))
