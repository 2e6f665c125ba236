-- ===== src/Nif/Listing.antt =====
-- What Elixir gets of the devices of one driver: `list_devices` of c_src/nx_iree.cc with a driver
-- name, on a library that creates them all.
use nx_iree.Base.{suc, ◌≡◌, refl, some, List, [], ◌∷◌, ◌++◌, Text, codes, false, arith}
use nx_iree.Machine.{Ptr, null, World, ok}
use nx_iree.Machine.Post.{Safe}
use nx_iree.Machine.Memory.{get_device, determined}
use nx_iree.Api.{Api, DeviceInfo}
use mathlib.Core.Option.{get_or}
use nx_iree.Discovery.Devices.{creation, opened, Listed}
use nx_iree.Discovery.Opened.{
  Opens, reached, closed, reached-devices, objects, listed, list_devices_of-Opens,
}
use nx_iree.Erlang.{Env, hal_device, driver_registry}
use nx_iree.Nif.Terms.{argument, ok_term, make, get_string}
use nx_iree.Nif.Devices.{device_term, device_terms, answer_devices, list_devices}

module _ (api : Api) (e : Env) (registry : Ptr) (name : Text) (driver : Ptr) where
  open e use {Term}

  -- The device at the handle that the library gave, its driver, its URI and its id.
  abbrev pub shown : DeviceInfo → Ptr → Term
  shown info handle = e.make_tuple (
      make e hal_device handle
      ∷ e.make_string name
      ∷ e.make_string (name ++ (codes "://" ++ info.path))
      ∷ e.make_uint64 info.device_id
      ∷ [])

  abbrev pub all_shown : List DeviceInfo → World → List Term
  all_shown [] w = []
  all_shown (info ∷ infos) w =
      shown info (get_or (creation api registry name driver info w).1 null)
      ∷ all_shown infos (opened api registry name driver info w)

  device_terms-all_shown :
      (infos : List DeviceInfo) (w v : World)
      → Opens api registry name driver infos w
      → ((q : Ptr) → v.devices q ≡ (reached api registry name driver infos w).devices q)
      → device_terms api e (objects api registry name driver infos w) v ≡ ok (all_shown infos w) v
  unfolding device_terms device_term get_device determined
  device_terms-all_shown [] w v o same = refl
  device_terms-all_shown (info ∷ infos) w v (p, made, o) same = ground (
    arith,
    same (suc w.last),
    made,
    reached-devices api registry name driver infos (opened api registry name driver info w)
        (suc w.last),
    device_terms-all_shown infos (opened api registry name driver info w) v o same,
  )

  module _ (infos : List DeviceInfo) (w : World) where
    -- Without CUDA, when the arguments can be read, the library creates the driver and lists
    -- its devices, and each can be created in turn, `list_devices` with a driver name answers,
    -- by no fault and no exception, with `ok` and one tuple for each device in the order in
    -- which the driver lists them: its handle, the name of the driver, `name://path` and the
    -- id.
    pub list_devices-all_shown :
        (a0 a1 : Term)
        → api.cuda_enabled ≡ false
        → e.get_resource driver_registry a0 ≡ some registry
        → get_string e a1 ≡ some name
        → Listed api registry name driver infos w
        → Opens api registry name driver infos (listed api registry name driver infos w)
        → Safe
            (λ r v.
              r
              ≡ ok_term e (e.make_list (all_shown infos (listed api registry name driver infos w))))
            (λ x v. ⊥)
            (list_devices api e a0 (some a1) w)
    unfolding list_devices argument answer_devices
    list_devices-all_shown a0 a1 host read named h o =
        rw
          (
            read,
            named,
            list_devices_of-Opens api registry name driver infos w host h o,
            device_terms-all_shown infos (listed api registry name driver infos w)
                (closed api registry name driver (
                  reached api registry name driver infos (listed api registry name driver infos w)))
                o λ q. refl,
          )
          refl
