-- ===== src/Ownership/Sessions.antt =====
-- Sessions of the browser: sequences of calls of the module of cmake/src/emscripten_api.h, and of
-- objects that their last owner lets go.
use nx_iree.Base.{ℕ, ◌≡◌, ◌≢◌, none, some, List, Text, subst, arith}
use nx_iree.Machine.{
  Ptr, Status, Exit, DataBuffer, World, M, pure, ◌>>=◌, ok, stop, fault, double_free, start,
}
use nx_iree.Machine.Post.{Safe}
use nx_iree.Api.{Api}
use nx_iree.Browser.{Browser}
use nx_iree.Tensor.{deallocate, delete_tensor}
use nx_iree.Discovery.{delete_device}
use nx_iree.Emscripten
use nx_iree.Emscripten.{
  set_buffer_size, set_id, set_uri, set_driver_name, drop_instance, drop_status, drop_data_buffer,
  serialize_iree_tensor, create_vm_instance, new_data_buffer, read_data, status_message,
  register_drivers, ensure_malloc_free,
}
use nx_iree.Emscripten.Values.{tensor_of_js, data_buffer_of_js, get_data, to_flat_array}
use nx_iree.Emscripten.SyncDevice.{create_local_sync_device}
use nx_iree.Discovery.{register_all_drivers}
use nx_iree.Ownership.Heap.{Owned, start-Owned}
use nx_iree.Ownership.Rules.{ends, stops, Kept, Kept-Owned, Kept-NoDoubleFree, kept_rules}
use nx_iree.Ownership.Memory.{IsOwned-Stable, reading_rules}
use nx_iree.Ownership.Release.{deallocate-Kept, delete_tensor-Kept}
use nx_iree.Ownership.Devices.{
  create_instance-Kept, get_status_message-Kept, delete_device-Kept, perform-Kept,
}
use nx_iree.Ownership.Browser.{
  serialize_iree_tensor-Kept, new_data_buffer-Kept, run_call-Kept, read_data-Kept,
  ensure_malloc_free-Kept, create_local_sync_device-Kept,
}
use nx_iree.Ownership.Arrays.{
  tensor_of_js-Kept, data_buffer_of_js-Kept, get_data-Kept, to_flat_array-Kept,
}
use nx_iree.Ownership.Buffers.{set_buffer_size-Kept, drop_data_buffer-Kept, drop_data_buffer-ok}

-- A call of the module, or an object that goes with its last owner.
pub data Action (b : Browser) : Type 0 where
  tensor_created : b.Val → b.Val → Text → Ptr → Action b
  flat_array_made tensor_deallocated tensor_serialized tensor_dropped : Ptr → Action b
  buffer_allocated : ℕ → Action b
  buffer_created : b.Val → Action b
  buffer_shown buffer_dropped : Ptr → Action b
  memory_ensured instance_created device_created : Action b
  instance_dropped device_dropped drivers_registered : Ptr → Action b
  called : Ptr → Ptr → Ptr → List Ptr → Action b
  buffer_read : Ptr → Ptr → ℕ → Action b
  message_read status_dropped : Status → Action b
  size_written id_written : Ptr → ℕ → Action b
  uri_written driver_name_written : Ptr → Text → Action b

module _ (api : Api) (b : Browser) where
  -- What is run; the answer stays in the browser.
  unfoldable pub perform_action : Action b → M (Unit {0})
  perform_action (tensor_created input dims type device) = do
    p ← tensor_of_js api b input dims type device
    pure tt
  perform_action (flat_array_made p) = do a ← to_flat_array api b p; pure tt
  perform_action (tensor_deallocated p) = deallocate p
  perform_action (tensor_serialized p) = do s ← serialize_iree_tensor api p; pure tt
  perform_action (tensor_dropped p) = delete_tensor p
  perform_action (buffer_allocated n) = do p ← new_data_buffer api n; pure tt
  perform_action (buffer_created input) = do p ← data_buffer_of_js api b input; pure tt
  perform_action (buffer_shown p) = do bytes ← get_data api b p; pure tt
  perform_action (buffer_dropped p) = drop_data_buffer p
  perform_action memory_ensured = ensure_malloc_free api
  perform_action instance_created = do p ← create_vm_instance api; pure tt
  perform_action device_created = do p ← create_local_sync_device api; pure tt
  perform_action (instance_dropped p) = drop_instance p
  perform_action (device_dropped p) = delete_device p
  perform_action (drivers_registered p) = do s ← register_drivers api p; pure tt
  perform_action (called vm device code inputs) = do
    r ← Emscripten.run_call api vm device code inputs
    pure tt
  perform_action (buffer_read device p n) = do r ← read_data api device p n; pure tt
  perform_action (message_read s) = do text ← status_message api s; pure tt
  perform_action (status_dropped s) = drop_status s
  perform_action (size_written p n) = set_buffer_size p n
  perform_action (id_written p n) = set_id p n
  perform_action (uri_written p text) = set_uri p text
  perform_action (driver_name_written p text) = set_driver_name p text

  -- The states of a session; it goes on after an exception, which JavaScript may catch.
  pub data Session : World → Type 0 where
    begin : Session start
    next : {w v : World} (a : Action b) → Session w → perform_action a w ≡ ok tt v → Session v
    caught :
        {w v : World} {e : Exit} (a : Action b)
        → Session w
        → perform_action a w ≡ stop e v
        → Session v

  perform_action-Kept : (a : Action b) (w : World) → Owned w → Kept (perform_action a w)
  unfolding perform_action create_vm_instance register_drivers register_all_drivers status_message
      drop_instance drop_status set_id set_uri set_driver_name
  perform_action-Kept (tensor_created input dims type device) w h =
      search (kept_rules, tensor_of_js-Kept)
  perform_action-Kept (flat_array_made p) w h = search (kept_rules, to_flat_array-Kept)
  perform_action-Kept (tensor_deallocated p) w h = deallocate-Kept p w h
  perform_action-Kept (tensor_serialized p) w h = search (kept_rules, serialize_iree_tensor-Kept)
  perform_action-Kept (tensor_dropped p) w h = delete_tensor-Kept p w h
  perform_action-Kept (buffer_allocated n) w h = search (kept_rules, new_data_buffer-Kept)
  perform_action-Kept (buffer_created input) w h = search (kept_rules, data_buffer_of_js-Kept)
  perform_action-Kept (buffer_shown p) w h = search (kept_rules, get_data-Kept)
  perform_action-Kept (buffer_dropped p) w h = drop_data_buffer-Kept p w h
  perform_action-Kept memory_ensured w h = ensure_malloc_free-Kept api w h
  perform_action-Kept instance_created w h = search (kept_rules, create_instance-Kept)
  perform_action-Kept device_created w h =
      search (kept_rules, create_local_sync_device-Kept, IsOwned-Stable)
  perform_action-Kept (instance_dropped p) w h = ends h
  perform_action-Kept (device_dropped p) w h = delete_device-Kept p w h
  perform_action-Kept (drivers_registered p) w h = search (kept_rules, perform-Kept)
  perform_action-Kept (called vm device code inputs) w h = search (kept_rules, run_call-Kept)
  perform_action-Kept (buffer_read device p n) w h = search (kept_rules, read_data-Kept)
  perform_action-Kept (message_read s) w h = search (kept_rules, get_status_message-Kept)
  perform_action-Kept (status_dropped s) w h = ends h
  perform_action-Kept (size_written p n) w h = set_buffer_size-Kept p n w h
  perform_action-Kept (id_written p n) w h = search reading_rules
  perform_action-Kept (uri_written p text) w h = search reading_rules
  perform_action-Kept (driver_name_written p text) w h = search reading_rules

  pub Session-Owned : {w : World} → Session w → Owned w
  Session-Owned begin = start-Owned
  Session-Owned (next {w} a s e) = Kept-Owned (perform_action-Kept a w (Session-Owned s)) e
  Session-Owned (caught {w} {e = x} a s e) =
      stopped (subst Kept e (perform_action-Kept a w (Session-Owned s)))
    where
      stopped : {v : World} → Kept {A = Unit {0}} (stop x v) → Owned v
      stopped (stops h) = h

  -- In every state of a session of the browser, which is any sequence of calls of the module,
  -- with any arguments, of writes to its properties, and of objects that their last owner lets
  -- go, also after exceptions: host copies of tensors are allocated and have the size that is
  -- written beside them, blocks of data buffers are allocated, and none of them is shared; no
  -- action frees a block of host memory twice, where the storage of statuses, which is the
  -- library's, does not count; and a data buffer that is there goes without undefined
  -- behaviour, its block is freed and no tensor changes.
  pub Session-Safe :
      (w : World)
      → Session w
      → Owned w
        × ((a : Action b) → perform_action a w ≢ fault double_free)
        × ((p : Ptr) (x : DataBuffer)
            → w.buffers p ≡ some x
            → Safe
                (λ u v.
                  (v.buffers p ≡ none) × (v.blocks x.data_ptr ≡ none) × (v.tensors ≡ w.tensors))
                (λ e v. ⊥)
                (drop_data_buffer p w))
  Session-Safe w s = (
    Session-Owned s,
    (λ a. Kept-NoDoubleFree (perform_action-Kept a w (Session-Owned s))),
    λ p x here. rw (drop_data_buffer-ok p x w (Session-Owned s) here) (ground arith),
  )
