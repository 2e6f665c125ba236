-- ===== src/Discovery/Opened.antt =====
-- The devices that `list_devices` of one driver opens when the library creates all of them.
use nx_iree.Base.{
  ℕ, suc, ◌≤◌, ◌≡◌, refl, some, List, [], ◌∷◌, ◌++◌, Text, codes, false, arith, append_assoc,
  append-nil,
}
use nx_iree.Machine.{Ptr, ok_status, World, driver_kind, ok, call_to, release}
use nx_iree.Api.{Api, DeviceInfo}
use nx_iree.Discovery.{device_loop, list_devices_of}
use nx_iree.Discovery.Devices.{
  creation, opened, device_loop-good, Listed, with_infos, list_devices_of-loop,
}

module _ (api : Api) (registry : Ptr) (name : Text) (driver : Ptr) where
  -- The library creates each device in turn.
  abbrev pub Opens : List DeviceInfo → World → Type 0
  Opens [] w = Unit {0}
  Opens (info ∷ infos) w =
      (p : Ptr) × (creation api registry name driver info w ≡ (ok_status, some p))
      × Opens infos (opened api registry name driver info w)

  -- The state after all were opened, and the objects that were made.
  abbrev pub reached : List DeviceInfo → World → World
  reached [] w = w
  reached (info ∷ infos) w = reached infos (opened api registry name driver info w)

  abbrev pub objects : List DeviceInfo → World → List Ptr
  objects [] w = []
  objects (info ∷ infos) w = suc w.last ∷ objects infos (opened api registry name driver info w)

  abbrev pub closed : World → World
  closed w = record w {
    trace = release driver_kind driver ∷ call_to (codes "iree_allocator_free") [] [] ∷ w.trace;
  }

  pub reached-devices :
      (infos : List DeviceInfo) (w : World) (q : Ptr)
      → q ≤ w.last
      → (reached infos w).devices q ≡ w.devices q
  reached-devices [] w q below = refl
  reached-devices (info ∷ infos) w q below =
      ground (arith, reached-devices infos (opened api registry name driver info w) q)

  pub device_loop-Opens :
      (infos : List DeviceInfo) (devices : List Ptr) (i : ℕ) (w : World)
      → api.cuda_enabled ≡ false
      → Opens infos w
      → device_loop api registry name driver i infos devices w
        ≡ ok (ok_status, devices ++ objects infos w) (closed (reached infos w))
  device_loop-Opens [] devices i w host h = unfold device_loop in rw (append-nil devices) refl
  device_loop-Opens (info ∷ infos) devices i w host (p, e, h) =
      rw
        (
          device_loop-good api registry name driver info infos devices i w host (rw e refl),
          device_loop-Opens infos (devices ++ suc w.last ∷ []) (suc i)
              (opened api registry name driver info w) host h,
          append_assoc devices (suc w.last ∷ [])
              (objects infos (opened api registry name driver info w)),
        )
        refl

module _ (api : Api) (registry : Ptr) (name : Text) (driver : Ptr) (infos : List DeviceInfo)
    (w : World) where
  abbrev pub listed : World
  listed = with_infos registry name driver w

  pub list_devices_of-Opens :
      api.cuda_enabled ≡ false
      → Listed api registry name driver infos w
      → Opens api registry name driver infos listed
      → list_devices_of api registry name [] w
        ≡ ok
            (ok_status, objects api registry name driver infos listed)
            (closed api registry name driver (reached api registry name driver infos listed))
  list_devices_of-Opens host h o =
      rw (list_devices_of-loop api registry name driver infos w [] h)
        (device_loop-Opens api registry name driver infos [] 0 listed host o)
