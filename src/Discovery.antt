-- ===== src/Discovery.antt =====
-- Instances, drivers and devices: the functions of cmake/src/runtime.cc from `create_instance` to
-- `create_device`, and `get_driver_registry`.
pub mod Drivers
pub mod Devices
pub mod Opened
pub mod Account
pub mod Balance
use nx_iree.Base.{
  ℕ, zero, suc, ◌+◌, Option, none, some, List, [], ◌∷◌, ◌++◌, Text, codes, text_eq, contains, ◌==◌,
  if◌then◌else◌,
}
use mathlib.Core.Option.{get_or}
use nx_iree.Machine.{
  Ptr, null, Status, ok_status, Driver, Device, instance_kind, driver_kind, device_kind, release,
  call_to, M, pure, ◌>>=◌, ◌>>◌, fail, log, ask, out_of_bounds,
}
use nx_iree.Machine.Memory.{new_device, get_device, set_device, free_device, determined}
use nx_iree.Api.{Api, DeviceInfo, is_ok, create, perform}
use nx_iree.Tensor.{run_if_cuda_enabled}

-- `Device::~Device` and the storage; the reference may be indeterminate.
unfoldable pub delete_device : Ptr → M (Unit {0})
delete_device p = do
  d ← get_device p
  ref ← determined d.ref
  if ref == null then pure tt else log (release device_kind ref)
  free_device p

-- `delete devices[i]`.
unfoldable pub delete_at : List Ptr → ℕ → M (Unit {0})
unfolding delete_device
delete_at [] i = fail out_of_bounds
delete_at (p ∷ devices) zero = delete_device p
delete_at (p ∷ devices) (suc i) = delete_at devices i

-- `for (j = 0; j <= i; j++) delete devices[i]`, over the rounds left.
unfoldable pub delete_rounds : ℕ → List Ptr → ℕ → M (Unit {0})
unfolding delete_at
delete_rounds zero devices i = pure tt
delete_rounds (suc rounds) devices i = do delete_at devices i; delete_rounds rounds devices i

-- `for (auto device : devices) delete device`.
unfoldable pub delete_devices : List Ptr → M (Unit {0})
unfolding delete_device
delete_devices [] = pure tt
delete_devices (p ∷ devices) = do delete_device p; delete_devices devices

-- The drivers but `hip`.
unfoldable pub keep_drivers : List Driver → List Driver
keep_drivers [] = []
keep_drivers (d ∷ infos) =
    if text_eq d.name (codes "hip") then keep_drivers infos else d ∷ keep_drivers infos

module _ (api : Api) where
  unfoldable pub create_instance : M Ptr
  create_instance = do
    (status, out) ← create instance_kind (codes "iree_vm_instance_create") [] [] api.instance_create
    let instance_ptr = get_or out null
    if is_ok status
        then (do
          status' ←
              perform (codes "iree_hal_module_register_all_types") (instance_ptr ∷ []) []
                λ t. api.register_all_types t instance_ptr
          if is_ok status'
              then pure instance_ptr
              else (log (release instance_kind instance_ptr) >> pure null))
        else pure null

  unfoldable pub register_all_drivers : Ptr → M Status
  register_all_drivers registry =
      perform (codes "iree_hal_register_all_available_drivers") (registry ∷ []) []
        λ t. api.register_all_available_drivers t registry

  unfoldable pub get_driver_registry : M Ptr
  get_driver_registry = ask api.available_driver_registry

  unfoldable pub list_drivers : Ptr → M (Status × List Driver)
  unfolding keep_drivers
  list_drivers registry = do
    (status, out) ← ask (λ t. api.registry_enumerate t registry)
    log (call_to (codes "iree_hal_driver_registry_enumerate") (registry ∷ []) [])
    infos ← determined out
    log (call_to (codes "iree_allocator_free") [] [])
    if is_ok status then pure (ok_status, keep_drivers infos) else pure (status, [])

  -- The clean-up when the device at `i` cannot be created.
  unfoldable pub give_up : Ptr → ℕ → List Ptr → Status → M (Status × List Ptr)
  unfolding delete_rounds
  give_up driver i devices status = do
    delete_rounds (suc i) devices i
    log (release driver_kind driver)
    log (call_to (codes "iree_allocator_free") [] [])
    pure (status, devices)

  -- One device: the object, with what `iree_hal_create_device` stored in it, and the status.
  unfoldable pub open_device : Ptr → Text → DeviceInfo → M (Status × Ptr)
  open_device registry driver_name info = do
    let uri = driver_name ++ (codes "://" ++ info.path)
    device ←
        new_device
          (record { uri = uri; ref = none; driver_name = driver_name; id = some info.device_id })
    (status, out) ←
        create device_kind (codes "iree_hal_create_device") (registry ∷ uri) []
          λ t. api.hal_create_device t registry uri
    set_device device
        (record { uri = uri; ref = out; driver_name = driver_name; id = some info.device_id })
    pure (status, device)

  -- The loop over the devices left, at index `i`.
  unfoldable pub device_loop :
      Ptr → Text → Ptr → ℕ → List DeviceInfo → List Ptr → M (Status × List Ptr)
  unfolding open_device give_up
  device_loop registry driver_name driver i [] devices = do
    log (call_to (codes "iree_allocator_free") [] [])
    log (release driver_kind driver)
    pure (ok_status, devices)
  device_loop registry driver_name driver i (info ∷ infos) devices = do
    (status, device) ← open_device registry driver_name info
    d ← get_device device
    let rest = (do
      run_if_cuda_enabled api (text_eq driver_name (codes "cuda")) d.ref
      device_loop registry driver_name driver (suc i) infos (devices ++ device ∷ []))
    if is_ok status then rest else give_up driver i devices status

  -- `list_devices(registry, driver_name, devices)`: the status, and the vector afterwards.
  unfoldable pub list_devices_of : Ptr → Text → List Ptr → M (Status × List Ptr)
  unfolding device_loop
  list_devices_of registry driver_name devices = do
    (status, out) ←
        create driver_kind (codes "iree_hal_driver_registry_try_create") (registry ∷ driver_name) []
          λ t. api.registry_try_create t registry driver_name
    driver ← determined out
    if is_ok status
        then (do
          (status', infos_out) ← ask (λ t. api.query_available_devices t driver)
          log (call_to (codes "iree_hal_driver_query_available_devices") (driver ∷ []) [])
          infos ← determined infos_out
          if is_ok status' then device_loop registry driver_name driver 0 infos devices else (do
            log (call_to (codes "iree_allocator_free") [] [])
            log (release driver_kind driver)
            pure (status', devices)))
        else (log (release driver_kind driver) >> pure (status, devices))

  -- The loop over the drivers left.
  unfoldable pub driver_loop : Ptr → List Driver → List Ptr → M (Status × List Ptr)
  unfolding list_devices_of delete_devices
  driver_loop registry [] devices = pure (ok_status, devices)
  driver_loop registry (driver ∷ drivers) devices = do
    (status, driver_devices) ← list_devices_of registry driver.name []
    let rest = driver_loop registry drivers (devices ++ driver_devices)
    if is_ok status then rest else (delete_devices devices >> pure (status, []))

  -- `list_devices(registry, devices)`.
  unfoldable pub list_devices : Ptr → List Ptr → M (Status × List Ptr)
  unfolding list_drivers driver_loop
  list_devices registry devices = do
    (status, drivers) ← list_drivers registry
    if is_ok status then driver_loop registry drivers devices else pure (status, devices)

  unfoldable pub create_device : Ptr → Text → M Ptr
  create_device registry device_uri = do
    (status, out) ←
        create device_kind (codes "iree_hal_create_device") (registry ∷ device_uri) []
          λ t. api.hal_create_device t registry device_uri
    let device = get_or out null
    run_if_cuda_enabled api (contains device_uri (codes "cuda://")) (some device)
    if is_ok status then pure device else (log (release device_kind device) >> pure null)
