-- ===== src/Ownership/Devices.antt =====
-- The functions on instances, drivers and devices keep every invariant of host memory.
use nx_iree.Base.{ℕ, suc, zero, Option, none, some, List, [], ◌∷◌, Text}
use nx_iree.Machine.{Ptr, Status, Cell, Kind, Trace, World}
use nx_iree.Api.{Api, Created, create, perform, DeviceInfo}
use nx_iree.Status.{get_status_message, text_of}
use nx_iree.Discovery.{
  create_instance, get_driver_registry, list_drivers, delete_device, delete_at, delete_rounds,
  delete_devices, give_up, open_device, device_loop, list_devices_of, driver_loop, list_devices,
}
use nx_iree.Machine.{Driver}
use nx_iree.Ownership.Rules.{ends, faults, Keeps, Shape, Holds, Stable, Kept-bind, kept_rules}
use nx_iree.Ownership.Memory.{reading_rules}
use nx_iree.Ownership.Tensors.{run_if_cuda_enabled-Kept}

pub create-Kept :
    {J : Shape} (k : Kind) (name : Text) (args : List ℕ) (bytes : List Cell) (q : Trace → Created)
    (w : World)
    → Holds J w
    → Keeps J (create k name args bytes q w)
unfolding create
create-Kept k name args bytes q w h = search kept_rules depth 12

pub perform-Kept :
    {J : Shape} (name : Text) (args : List ℕ) (bytes : List Cell) (q : Trace → Status) (w : World)
    → Holds J w
    → Keeps J (perform name args bytes q w)
unfolding perform
perform-Kept name args bytes q w h = search kept_rules depth 12

pub delete_device-Kept : {J : Shape} (p : Ptr) (w : World) → Holds J w → Keeps J (delete_device p w)
unfolding delete_device
delete_device-Kept p w h = search reading_rules depth 12

delete_at-Kept :
    {J : Shape} (devices : List Ptr) (i : ℕ) (w : World)
    → Holds J w
    → Keeps J (delete_at devices i w)
unfolding delete_at
delete_at-Kept [] i w h = (faults tt)
delete_at-Kept (p ∷ devices) zero w h = delete_device-Kept p w h
delete_at-Kept (p ∷ devices) (suc i) w h = delete_at-Kept devices i w h

delete_rounds-Kept :
    {J : Shape} (rounds : ℕ) (devices : List Ptr) (i : ℕ) (w : World)
    → Holds J w
    → Keeps J (delete_rounds rounds devices i w)
unfolding delete_rounds
delete_rounds-Kept zero devices i w h = ends h
delete_rounds-Kept (suc rounds) devices i w h =
    Kept-bind (delete_at-Kept devices i w h) λ _ v k. delete_rounds-Kept rounds devices i v k

delete_devices-Kept :
    {J : Shape} (devices : List Ptr) (w : World) → Holds J w → Keeps J (delete_devices devices w)
unfolding delete_devices
delete_devices-Kept [] w h = ends h
delete_devices-Kept (p ∷ devices) w h =
    Kept-bind (delete_device-Kept p w h) λ _ v k. delete_devices-Kept devices v k

text_of-Kept : {J : Shape} (text : Option Text) (w : World) → Holds J w → Keeps J (text_of text w)
unfolding text_of
text_of-Kept none w h = (faults tt)
text_of-Kept (some text) w h = ends h

module _ (api : Api) where
  pub get_status_message-Kept :
      {J : Shape} (s : Status) (w : World) → Holds J w → Keeps J (get_status_message api s w)
  unfolding get_status_message
  get_status_message-Kept s w h = search (kept_rules, text_of-Kept) depth 12

  pub create_instance-Kept : {J : Shape} (w : World) → Holds J w → Keeps J (create_instance api w)
  unfolding create_instance
  create_instance-Kept w h = search (kept_rules, create-Kept, perform-Kept) depth 12

  pub get_driver_registry-Kept :
      {J : Shape} (w : World) → Holds J w → Keeps J (get_driver_registry api w)
  unfolding get_driver_registry
  get_driver_registry-Kept w h = ends h

  pub list_drivers-Kept :
      {J : Shape} (registry : Ptr) (w : World) → Holds J w → Keeps J (list_drivers api registry w)
  unfolding list_drivers
  list_drivers-Kept registry w h = search reading_rules depth 12

  give_up-Kept :
      {J : Shape} (driver : Ptr) (i : ℕ) (devices : List Ptr) (s : Status) (w : World)
      → Holds J w
      → Keeps J (give_up api driver i devices s w)
  unfolding give_up
  give_up-Kept driver i devices s w h = search (kept_rules, delete_rounds-Kept) depth 12

  open_device-Kept :
      {J : Shape}
      → Stable J
      → (registry : Ptr) (name : Text) (info : DeviceInfo) (w : World) → Holds J w
      → Keeps J (open_device api registry name info w)
  unfolding open_device
  open_device-Kept s registry name info w h = search (reading_rules, create-Kept) depth 12

  device_loop-Kept :
      {J : Shape}
      → Stable J
      → (registry : Ptr) (name : Text) (driver : Ptr) (i : ℕ) (infos : List DeviceInfo)
        (devices : List Ptr) (w : World)
      → Holds J w
      → Keeps J (device_loop api registry name driver i infos devices w)
  unfolding device_loop
  device_loop-Kept s registry name driver i [] devices w h = search kept_rules
  device_loop-Kept s registry name driver i (info ∷ infos) devices w h =
      search
        (
          reading_rules,
          open_device-Kept,
          run_if_cuda_enabled-Kept,
          give_up-Kept,
          device_loop-Kept s registry name driver (suc i) infos,
        )
        depth 12

  pub list_devices_of-Kept :
      {J : Shape}
      → Stable J
      → (registry : Ptr) (name : Text) (devices : List Ptr) (w : World) → Holds J w
      → Keeps J (list_devices_of api registry name devices w)
  unfolding list_devices_of
  list_devices_of-Kept s registry name devices w h =
      search (reading_rules, create-Kept, device_loop-Kept) depth 16

  driver_loop-Kept :
      {J : Shape}
      → Stable J
      → (registry : Ptr) (drivers : List Driver) (devices : List Ptr) (w : World) → Holds J w
      → Keeps J (driver_loop api registry drivers devices w)
  unfolding driver_loop
  driver_loop-Kept s registry [] devices w h = ends h
  driver_loop-Kept s registry (driver ∷ drivers) devices w h =
      search
        (kept_rules, list_devices_of-Kept, delete_devices-Kept, driver_loop-Kept s registry drivers)
        depth 12

  pub list_devices-Kept :
      {J : Shape}
      → Stable J
      → (registry : Ptr) (devices : List Ptr) (w : World) → Holds J w
      → Keeps J (list_devices api registry devices w)
  unfolding list_devices
  list_devices-Kept s registry devices w h =
      search (kept_rules, list_drivers-Kept, driver_loop-Kept) depth 12
