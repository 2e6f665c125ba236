-- ===== src/Ownership/Browser.antt =====
-- The functions of the API for the browser, for the invariant of host memory.
use nx_iree.Base.{
  ℕ, sym, suc, refl, Option, none, some, List, [], ◌∷◌, Text, Bool-cases, Option-cases, inl, inr,
  arith, ◌==◌, length-replicate, replicate,
}
use nx_iree.Machine.{Ptr, null, Cell, Kind, Trace, Status, World, pure, ◌>>=◌}
use nx_iree.Machine.Memory.{malloc, get_tensor, set_tensor, get_device}
use nx_iree.Api.{Api, Created}
use nx_iree.Tensor.{read_buffer}
use nx_iree.Emscripten.{
  buffer_bytes, serialize_iree_tensor, string_of, new_data_buffer, fetch_output, fetch_outputs,
  wrap_outputs, run_call, read_data, ensure_malloc_free, named_drivers,
}
use nx_iree.Emscripten.SyncDevice.{
  step_if_ok, drop_loader, create_device_with_loaders, sync_device_object, create_local_sync_device,
}
use nx_iree.Ownership.Heap.{Owned}
use nx_iree.Ownership.Changes.{
  put_tensor, add_block, fresh-Spared, fresh-unbuffered, tensor-le-last,
}
use nx_iree.Ownership.Rules.{
  Run-bind, Kept, Keeps, Shape, Holds, Stable, ends, stops, faults, kept_rules,
}
use nx_iree.Ownership.Memory.{memory_rules, reading_rules, get_device-Kept}
use nx_iree.Ownership.Ready.{malloc-Ready}
use nx_iree.Ownership.Tensors.{read_buffer-Kept, serialize-Kept}
use nx_iree.Ownership.Devices.{create-Kept, get_status_message-Kept, list_drivers-Kept}
use nx_iree.Ownership.Runs.{call-Kept}
use nx_iree.Ownership.Buffers.{new_buffer-Ready, drop_data_buffer-Kept, get_buffer-Kept, free-Ready}

pub string_of-Kept :
    {J : Shape} (s : Option (List Cell)) (w : World) → Holds J w → Keeps J (string_of s w)
unfolding string_of
string_of-Kept none w h = faults tt
string_of-Kept (some s) w h = ends h

step_if_ok-Kept :
    {J : Shape} (s : Status) (before : Option Ptr) (k : Kind) (name : Text) (args : List ℕ)
    (q : Trace → Created) (w : World)
    → Holds J w
    → Keeps J (step_if_ok s before k name args q w)
unfolding step_if_ok
step_if_ok-Kept s before k name args q w h = search (kept_rules, create-Kept) depth 12

drop_loader-Kept : {J : Shape} (l : Option Ptr) (w : World) → Holds J w → Keeps J (drop_loader l w)
unfolding drop_loader
drop_loader-Kept l w h = search kept_rules

pub buffer_bytes-Kept : {J : Shape} (p : Ptr) (w : World) → Holds J w → Keeps J (buffer_bytes p w)
unfolding buffer_bytes
buffer_bytes-Kept p w h = search (reading_rules, get_buffer-Kept)

module _ (api : Api) where
  pub serialize_iree_tensor-Kept :
      (p : Ptr) (w : World) → Owned w → Kept (serialize_iree_tensor api p w)
  unfolding serialize_iree_tensor
  serialize_iree_tensor-Kept p w h = search (kept_rules, serialize-Kept, string_of-Kept)

  pub new_data_buffer-Kept : (n : ℕ) (w : World) → Owned w → Kept (new_data_buffer api n w)
  unfolding new_data_buffer
  new_data_buffer-Kept n w h = Run-bind (malloc-Ready api.can_alloc n w h) λ p v r.
      elim (Bool-cases (p == null)) [
        | inl e ↦ rw e (stops r.owned)
        | inr e ↦ rw e (new_buffer-Ready (record { data_ptr = p; size = n }) v r (ground arith))
      ]

  -- The rest of `fetch_output`, once the tensor has its block.
  filling_up :
      (device view p n : ℕ) (w : World)
      → Owned w
      → Kept ((do d ← get_device device; status ← read_buffer api d.ref view p n; pure tt) w)
  filling_up device view p n w h = search (kept_rules, get_device-Kept, read_buffer-Kept) depth 12

  fetch_output-Kept : (device p : Ptr) (w : World) → Owned w → Kept (fetch_output api device p w)
  unfolding fetch_output get_tensor set_tensor malloc
  fetch_output-Kept device p w h = elim (Option-cases (w.tensors p)) [
    | inl e ↦ rw e (faults tt)
    | inr (t, e) ↦
        let n = api.buffer_byte_length w.trace (api.view_buffer w.trace t.buffer_view) in
        elim (Bool-cases (api.can_alloc w.trace n)) [
          | inl granted ↦
              let copied =
                put_tensor (add_block h (replicate n none)) p
                  (record t { size = n; data_ptr = suc w.last })
                  (omega (arith, tensor-le-last h p t e))
                  (record {
                    copy = λ ne.
                        (replicate n none, ground arith, length-replicate {0} {A = Cell} n none);
                    spared = fresh-Spared h p;
                    unbuffered = fresh-unbuffered h;
                    device = h.placed p t e;
                  }) in
              rw (e, granted) (filling_up device _ _ _ _ copied)
          | inr refused ↦
              let emptied =
                put_tensor h p (record t { size = n; data_ptr = null }) (tensor-le-last h p t e)
                  (record {
                    copy = λ ne. absurd (ne refl);
                    spared = λ q u there ne nn. absurd (nn refl);
                    unbuffered = λ q b there. λ same. h.real q b there (sym same);
                    device = h.placed p t e;
                  }) in
              rw (e, refused) (filling_up device _ _ _ _ emptied)
        ]
  ]

  fetch_outputs-Kept :
      (device : Ptr) (ps : List Ptr) (w : World) → Owned w → Kept (fetch_outputs api device ps w)
  unfolding fetch_outputs
  fetch_outputs-Kept device [] w h = ends h
  fetch_outputs-Kept device (p ∷ ps) w h =
      search (kept_rules, fetch_output-Kept, fetch_outputs-Kept device ps)

  wrap_outputs-Kept :
      (device : Ptr) (r : Option (List Ptr)) (w : World)
      → Owned w
      → Kept (wrap_outputs api device r w)
  unfolding wrap_outputs
  wrap_outputs-Kept device none w h = ends h
  wrap_outputs-Kept device (some ps) w h = search (kept_rules, fetch_outputs-Kept)

  pub run_call-Kept :
      (vm device code : Ptr) (ps : List Ptr) (w : World)
      → Owned w
      → Kept (run_call api vm device code ps w)
  unfolding run_call
  run_call-Kept vm device code ps w h =
      search (memory_rules, buffer_bytes-Kept, call-Kept, wrap_outputs-Kept) depth 12

  pub read_data-Kept :
      (device tensor n : ℕ) (w : World) → Owned w → Kept (read_data api device tensor n w)
  unfolding read_data
  read_data-Kept device tensor n w h =
      search
        (
          memory_rules, new_data_buffer-Kept, get_buffer-Kept, read_buffer-Kept,
          drop_data_buffer-Kept,
        )
        depth 16

  pub ensure_malloc_free-Kept : (w : World) → Owned w → Kept (ensure_malloc_free api w)
  unfolding ensure_malloc_free
  ensure_malloc_free-Kept w h = Run-bind (malloc-Ready api.can_alloc 1 w h) λ p v r. free-Ready v r

  pub named_drivers-Kept :
      (registry : Ptr) (w : World) → Owned w → Kept (named_drivers api registry w)
  unfolding named_drivers
  named_drivers-Kept registry w h = search (kept_rules, list_drivers-Kept)

  create_device_with_loaders-Kept :
      {J : Shape} (w : World) → Holds J w → Keeps J (create_device_with_loaders api w)
  unfolding create_device_with_loaders
  create_device_with_loaders-Kept w h =
      search (kept_rules, step_if_ok-Kept, drop_loader-Kept) depth 30

  sync_device_object-Kept :
      {J : Shape}
      → Stable J
      → (raw : Ptr) (w : World) → Holds J w
      → Keeps J (sync_device_object api raw w)
  unfolding sync_device_object
  sync_device_object-Kept s raw w h = search reading_rules

  pub create_local_sync_device-Kept :
      {J : Shape} → Stable J → (w : World) → Holds J w → Keeps J (create_local_sync_device api w)
  unfolding create_local_sync_device
  create_local_sync_device-Kept s w h =
      search
        (
          reading_rules, create_device_with_loaders-Kept, sync_device_object-Kept,
          get_status_message-Kept,
        )
        depth 16
