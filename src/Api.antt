-- ===== src/Api.antt =====
-- The IREE library and the allocator, which the code under cmake/src and c_src only calls: each
-- function of the library is a function of the history of calls and of its own arguments, so
-- nothing is assumed of what it answers, nor that it answers twice alike.
use nx_iree.Base.{ℕ, ◌≡◌, List, Bool, Text, Option, length, ◌==◌, if◌then◌else◌}
use mathlib.Core.Option.{get_or}
use nx_iree.Machine.{
  Ptr, null, Status, ok_status, Cell, Trace, Driver, Kind, acquire, call_to, M, pure, ◌>>=◌, ◌>>◌,
  log, ask,
}

-- `iree_hal_device_info_t`: the device's path and id.
pub record DeviceInfo : Type 0 where
  pub path : Text
  pub device_id : ℕ

-- What a creating function answers: its status, and what it leaves in its out-parameter, which is
-- `none` where the function does not write it.
abbrev pub Created : Type 0
Created = Status × Option Ptr

pub record Api : Type 0 where
  pub can_alloc : Trace → ℕ → Bool
  pub cuda_enabled : Bool
  -- Buffer views and buffers.
  pub view_byte_length : Trace → Ptr → ℕ
  pub view_shape_rank : Trace → Ptr → ℕ
  pub view_shape_dims : Trace → Ptr → List ℕ
  pub view_element_type : Trace → Ptr → ℕ
  pub view_buffer : Trace → Ptr → Ptr
  pub buffer_byte_length : Trace → Ptr → ℕ
  pub device_id : Trace → Ptr → Text
  -- The status of a copy to the host, and the bytes that it writes.
  pub transfer_d2h : Trace → Ptr → Ptr → ℕ → Status × List ℕ
  pub allocate_buffer_copy : Trace → Ptr → List ℕ → ℕ → List Cell → Created
  -- Statuses.
  pub status_to_string : Trace → Status → Option Text
  pub not_found : ℕ → Status
  -- Instances, drivers and devices.
  pub instance_create : Trace → Created
  pub register_all_types : Trace → Ptr → Status
  pub register_all_available_drivers : Trace → Ptr → Status
  pub available_driver_registry : Trace → Ptr
  pub registry_enumerate : Trace → Ptr → Status × Option (List Driver)
  pub registry_try_create : Trace → Ptr → Text → Created
  pub query_available_devices : Trace → Ptr → Status × Option (List DeviceInfo)
  pub hal_create_device : Trace → Ptr → Text → Created
  -- The virtual machine.
  pub hal_module_create : Trace → Ptr → Ptr → Created
  pub bytecode_module_create : Trace → Ptr → List ℕ → Created
  pub context_create : Trace → Ptr → Ptr → Ptr → Created
  pub resolve_function : Trace → Ptr → Text → Status × Ptr
  pub list_create : Trace → ℕ → Created
  pub list_push : Trace → Ptr → Ptr → Status
  pub cconv_fragments : Trace → Ptr → Status × (Text × Text)
  pub vm_invoke : Trace → Ptr → Ptr → Ptr → Ptr → Status
  pub list_get_view_retain : Trace → Ptr → ℕ → Ptr
  -- The parts of the local synchronous device.
  pub plugin_manager_create : Trace → Created
  pub system_loader_create : Trace → Ptr → Created
  pub vmvx_loader_create : Trace → Created
  pub heap_create : Trace → Text → Created
  pub sync_device_create : Trace → Text → List Ptr → Ptr → Created

-- `iree_status_is_ok`.
abbrev pub is_ok : Status → Bool
is_ok s = s == ok_status

-- A call that creates an object, and hands a reference of the kind to the caller if it succeeds.
unfoldable pub create : Kind → Text → List ℕ → List Cell → (Trace → Created) → M Created
create k name args bytes q = do
  (status, out) ← ask q
  log (call_to name args bytes)
  if is_ok status then log (acquire k (get_or out null)) else pure tt
  pure (status, out)

-- A call of which only the status matters.
unfoldable pub perform : Text → List ℕ → List Cell → (Trace → Status) → M Status
perform name args bytes q = do status ← ask q; log (call_to name args bytes); pure status

-- A copy to the host that succeeds writes all the bytes that were asked for.
abbrev pub TransfersAll : Api → Type 0
TransfersAll api =
    (t : Trace) (d b : Ptr) (n : ℕ)
    → (api.transfer_d2h t d b n).0 ≡ ok_status
    → length (api.transfer_d2h t d b n).1 ≡ n
