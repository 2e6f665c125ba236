-- ===== src/Emscripten/SyncDevice.antt =====
-- `create_device_with_loaders` and `nx_iree_create_local_sync_device` of
-- cmake/src/emscripten_api.cc.
use nx_iree.Base.{
  ℕ, ◌≡◌, ◌≢◌, Option, none, some, List, [], ◌∷◌, ◌++◌, Text, codes, arith, ◌==◌, if◌then◌else◌,
}
use mathlib.Core.Option.{get_or}
use nx_iree.Machine.{
  Ptr, null, Status, ok_status, Trace, Kind, plugin_manager_kind, loader_kind, allocator_kind,
  device_kind, release, M, pure, ◌>>=◌, ◌>>◌, log, ask, World,
}
use nx_iree.Machine.Memory.{new_device, determined}
use nx_iree.Machine.Ledger.{acquired, disposed}
use nx_iree.Machine.Post.{Safe}
use nx_iree.Api.{Api, Created, is_ok, create}
use nx_iree.Status.{get_status_message}

-- One of the steps `if (iree_status_is_ok(status)) status = create(..., &out)`, with what the
-- variable `out` held before.
unfoldable pub step_if_ok :
    Status → Option Ptr → Kind → Text → List ℕ → (Trace → Created) → M (Status × Option Ptr)
step_if_ok status before k name args q =
    if is_ok status
    then (do
      (status', out) ← create k name args [] q
      pure (status', elim out [ none ↦ before | some p ↦ some p ]))
    else pure (status, before)

-- The release of a loader that may be null.
unfoldable pub drop_loader : Option Ptr → M (Unit {0})
drop_loader loader = log (release loader_kind (get_or loader null))

abbrev identifier : Text
identifier = codes "local-sync"

module _ (api : Api) where
  -- The loaders count as they are named in a call, even in one that fails.
  unfoldable pub create_device_with_loaders : M (Status × Option Ptr)
  unfolding step_if_ok drop_loader
  create_device_with_loaders = do
    (s0, manager) ←
        step_if_ok ok_status (some null) plugin_manager_kind
          (codes "iree_hal_executable_plugin_manager_create") [] api.plugin_manager_create
    let plugin_manager = get_or manager null
    (s1, loader_0) ←
        step_if_ok s0 (some null) loader_kind (codes "iree_hal_system_library_loader_create")
          (plugin_manager ∷ []) λ t. api.system_loader_create t plugin_manager
    (s2, loader_1) ←
        step_if_ok s1 (some null) loader_kind (codes "iree_hal_vmvx_module_loader_create_isolated")
          [] api.vmvx_loader_create
    (s3, heap) ←
        step_if_ok s2 (some null) allocator_kind (codes "iree_hal_allocator_create_heap") []
          λ t. api.heap_create t identifier
    let device_allocator = get_or heap null
    let loaders = get_or loader_0 null ∷ get_or loader_1 null ∷ []
    (s4, out_device) ←
        step_if_ok s3 none device_kind (codes "iree_hal_sync_device_create") loaders
          λ t. api.sync_device_create t identifier loaders device_allocator
    log (release allocator_kind device_allocator)
    if is_ok s0 then drop_loader loader_0 else pure tt
    if is_ok s1 then drop_loader loader_1 else pure tt
    pure (s4, out_device)

  -- The device object for what was created; `id` is not set.
  unfoldable pub sync_device_object : Ptr → M Ptr
  sync_device_object raw_device = do
    device_id ← ask (λ t. api.device_id t raw_device)
    new_device (record {
      uri = codes "local-sync://" ++ device_id;
      ref = some raw_device;
      driver_name = codes "local-sync";
      id = none;
    })

  unfoldable pub create_local_sync_device : M Ptr
  unfolding create_device_with_loaders sync_device_object
  create_local_sync_device = do
    (status, out) ← create_device_with_loaders
    if is_ok status
        then (do
          raw_device ← determined out
          if raw_device == null then pure null else sync_device_object raw_device)
        else (do message ← get_status_message api status; pure null)

  -- `create_device_with_loaders` returns without undefined behaviour; it never gives back the
  -- plugin manager, it releases no device, and on an error it holds none.
  pub create_device_with_loaders-balance :
      (w : World)
      → Safe
          (λ r v.
            (r.0 ≢ ok_status → acquired device_kind v.trace ≡ acquired device_kind w.trace)
            × (disposed device_kind v.trace ≡ disposed device_kind w.trace)
            × (disposed plugin_manager_kind v.trace ≡ disposed plugin_manager_kind w.trace))
          (λ e v. ⊥)
          (create_device_with_loaders w)
  unfolding create_device_with_loaders create acquired disposed
  create_device_with_loaders-balance w = ground arith
