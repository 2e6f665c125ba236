-- ===== src/Emscripten.antt =====
-- The API for the browser, cmake/src/emscripten_api.cc. A shared pointer is a pointer; what it does
-- when its last owner goes is the function named `drop_...`.
pub mod Values
pub mod SyncDevice
pub mod Loaders
pub mod Reads
pub mod Arrays
pub mod Bindings
pub mod Runs
use nx_iree.Base.{
  Bool, ℕ, ◌*◌, Option, none, some, List, [], ◌∷◌, ◌++◌, map, Text, codes, length, ◌==◌,
  if◌then◌else◌,
}
use mathlib.Core.Option
use nx_iree.Machine.{
  Ptr, null, Status, ok_status, Cell, Driver, instance_kind, release, call_to, status_free, M, pure,
  ◌>>=◌, ◌>>◌, fail, stop_with, runtime_error, null_deref, log, ask,
}
use nx_iree.Machine.Memory.{
  malloc, free, load, get_tensor, set_tensor, get_device, determined, new_buffer, get_buffer,
  free_buffer, set_buffer, set_device,
}
use nx_iree.Api.{Api, is_ok}
use nx_iree.Status.{get_status_message}
use nx_iree.Tensor.{serialize, read_buffer}
use nx_iree.Discovery
use nx_iree.Call.{call}

-- `~nx_iree_vm_instance_t`.
unfoldable pub drop_instance : Ptr → M (Unit {0})
drop_instance p = log (release instance_kind p)

-- `~nx_iree_driver_registry_t`.
unfoldable pub drop_registry : Ptr → M (Unit {0})
drop_registry p = log (call_to (codes "iree_hal_driver_registry_free") (p ∷ []) [])

-- `~nx_iree_driver_t`: a driver's names are all that it has.
unfoldable pub drop_driver : Driver → M (Unit {0})
drop_driver d = pure tt

-- `~nx_iree_status_t`.
unfoldable pub drop_status : Status → M (Unit {0})
drop_status s = log (status_free s)

-- `~nx_iree_data_buffer_t`, and the storage.
unfoldable pub drop_data_buffer : Ptr → M (Unit {0})
drop_data_buffer p = do b ← get_buffer p; free b.data_ptr; free_buffer p

-- What Embind's setters of the members of `nx_iree_data_buffer_t` and `Device` do.
unfoldable pub set_buffer_size : Ptr → ℕ → M (Unit {0})
set_buffer_size p n = do b ← get_buffer p; set_buffer p (record b { size = n })

unfoldable pub set_uri : Ptr → Text → M (Unit {0})
set_uri p text = do d ← get_device p; set_device p (record d { uri = text })

unfoldable pub set_driver_name : Ptr → Text → M (Unit {0})
set_driver_name p text = do d ← get_device p; set_device p (record d { driver_name = text })

unfoldable pub set_id : Ptr → ℕ → M (Unit {0})
set_id p n = do d ← get_device p; set_device p (record d { id = some n })

-- `nx_iree_status_is_ok`.
unfoldable pub status_is_ok : Status → M Bool
status_is_ok s = pure (is_ok s)

-- The cells as bytes, if all of them are determined.
unfoldable pub all_bytes : List Cell → Option (List ℕ)
all_bytes [] = some []
all_bytes (none ∷ cells) = none
all_bytes (some b ∷ cells) = Option.map (λ bs. b ∷ bs) (all_bytes cells)

-- What the library reads of a bytecode, `size` bytes at `data`.
unfoldable pub buffer_bytes : Ptr → M (List ℕ)
buffer_bytes bytecode = do
  b ← get_buffer bytecode
  cells ← load b.data_ptr b.size
  determined (all_bytes cells)

-- `serialized->begin()` is read before anything is tested.
unfoldable pub string_of : Option (List Cell) → M (List Cell)
string_of none = fail null_deref
string_of (some serialized) = pure serialized

module _ (api : Api) where
  unfoldable pub serialize_iree_tensor : Ptr → M (List Cell)
  unfolding string_of
  serialize_iree_tensor tensor = do serialized ← serialize api tensor; string_of serialized

  unfoldable pub create_vm_instance : M Ptr
  create_vm_instance = Discovery.create_instance api

  -- `nx_iree_data_buffer_t(size_t)`.
  unfoldable pub new_data_buffer : ℕ → M Ptr
  new_data_buffer size = do
    data_ptr ← malloc api.can_alloc size
    if data_ptr == null
        then stop_with (runtime_error (codes "Failed to allocate memory."))
        else new_buffer (record { data_ptr = data_ptr; size = size })

  -- The host copy of one output; what `read_buffer` answers is not looked at.
  unfoldable pub fetch_output : Ptr → Ptr → M (Unit {0})
  fetch_output device entry = do
    t ← get_tensor entry
    buffer ← ask (λ s. api.view_buffer s t.buffer_view)
    size ← ask (λ s. api.buffer_byte_length s buffer)
    data_ptr ← malloc api.can_alloc size
    set_tensor entry (record t { size = size; data_ptr = data_ptr })
    d ← get_device device
    status ← read_buffer api d.ref t.buffer_view data_ptr size
    pure tt

  unfoldable pub fetch_outputs : Ptr → List Ptr → M (Unit {0})
  unfolding fetch_output
  fetch_outputs device [] = pure tt
  fetch_outputs device (entry ∷ outputs) = do
    fetch_output device entry
    fetch_outputs device outputs

  unfoldable pub wrap_outputs : Ptr → Option (List Ptr) → M (List Ptr)
  unfolding fetch_outputs
  wrap_outputs device none = pure []
  wrap_outputs device (some outputs) = do fetch_outputs device outputs; pure outputs

  -- `nx_iree_call`: the status, and the outputs with host copies.
  unfoldable pub run_call : Ptr → Ptr → Ptr → List Ptr → M (Status × List Ptr)
  unfolding wrap_outputs buffer_bytes
  run_call vm device bytecode wrapped_inputs = do
    d ← get_device device
    ref ← determined d.ref
    code ← buffer_bytes bytecode
    (status, opt_outputs) ← call api vm ref d.driver_name code wrapped_inputs
    wrapped_outputs ← wrap_outputs device opt_outputs
    pure (status, wrapped_outputs)

  -- `nx_iree_read_buffer`; on failure the buffer goes with its last owner.
  unfoldable pub read_data : Ptr → Ptr → ℕ → M (Status × Option Ptr)
  unfolding new_data_buffer drop_data_buffer
  read_data device tensor num_bytes = do
    data_buffer ← new_data_buffer num_bytes
    b ← get_buffer data_buffer
    d ← get_device device
    t ← get_tensor tensor
    status ← read_buffer api d.ref t.buffer_view b.data_ptr num_bytes
    if is_ok status
        then pure (status, some data_buffer)
        else (drop_data_buffer data_buffer >> pure (status, none))

  -- `nx_iree_get_status_message`, on the status that the handle keeps.
  unfoldable pub status_message : Status → M Text
  status_message s = get_status_message api s

  unfoldable pub register_drivers : Ptr → M Status
  register_drivers registry = Discovery.register_all_drivers api registry

  -- `nx_iree_list_drivers`: each driver beside its name.
  unfoldable pub named_drivers : Ptr → M (Status × List (Text × Driver))
  named_drivers registry = do
    (status, raw_drivers) ← Discovery.list_drivers api registry
    pure (status, map (λ (d : Driver). (d.name, d)) raw_drivers)

  unfoldable pub ensure_malloc_free : M (Unit {0})
  ensure_malloc_free = do p ← malloc api.can_alloc 1; free p
