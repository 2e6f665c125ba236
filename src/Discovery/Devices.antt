-- ===== src/Discovery/Devices.antt =====
-- What becomes of the devices that `list_devices` opens.
use nx_iree.Base.{
  ℕ, suc, ◌+◌, ◌≡◌, refl, ◌⊎◌, inl, inr, none, some, List, [], ◌∷◌, ◌++◌, Text, codes, Bool-cases,
  true, false, if◌then◌else◌, arith, length, length-append,
}
use nx_iree.Machine.{
  Ptr, null, Status, Trace, Device, update, acquire, device_kind, ok_status, World, driver_kind, ok,
  call_to, Res, fault, out_of_bounds,
}
use nx_iree.Machine.Memory.{determined, new_device, get_device, set_device}
use nx_iree.Api.{Api, create, is_ok, DeviceInfo, Created}
use nx_iree.Tensor.{run_if_cuda_enabled}
use mathlib.Core.Option.{get_or}
use nx_iree.Discovery.{delete_at, delete_rounds, device_loop, open_device, give_up, list_devices_of}

-- A run ends in a read past the end of a vector, or gives a value of the given form.
abbrev pub Escapes : {A : Type 0} → (A → World → Type 0) → Res A → Type 0
Escapes P (Res.ok a w) = P a w
Escapes P (Res.stop e w) = ⊥
Escapes P (Res.fault out_of_bounds) = Unit {0}
Escapes P (Res.fault x) = ⊥

delete_past :
    (devices : List Ptr) (w : World) → delete_at devices (length devices) w ≡ fault out_of_bounds
unfolding delete_at
delete_past [] w = refl
delete_past (p ∷ devices) w = delete_past devices w

module _ (api : Api) (registry : Ptr) (name : Text) (driver : Ptr) where
  -- The clean-up of a vector with as many devices as the index says reads past its end.
  give_up_past :
      (devices : List Ptr) (s : Status) (w : World)
      → give_up api driver (length devices) devices s w ≡ fault out_of_bounds
  unfolding give_up delete_rounds
  give_up_past devices s w = rw (delete_past devices w)

  abbrev uri_of : DeviceInfo → Text
  uri_of info = name ++ (codes "://" ++ info.path)

  -- What the library answers to the creation of a device.
  abbrev pub creation : DeviceInfo → World → Created
  creation info w = api.hal_create_device w.trace registry (uri_of info)

  abbrev pub device_object : DeviceInfo → World → Device
  device_object info w = record {
    uri = uri_of info;
    ref = (creation info w).1;
    driver_name = name;
    id = some info.device_id;
  }

  abbrev creation_trace : DeviceInfo → World → Trace
  creation_trace info w =
      call_to (codes "iree_hal_create_device") (registry ∷ uri_of info) [] ∷ w.trace

  -- The state after a device was opened, or was not.
  abbrev pub opened : DeviceInfo → World → World
  opened info w = record w {
    last = suc w.last;
    devices =
        update (update w.devices (suc w.last) (some (record (device_object info w) { ref = none })))
          (suc w.last) (some (device_object info w));
    trace =
        if is_ok (creation info w).0
        then acquire device_kind (get_or (creation info w).1 null) ∷ creation_trace info w
        else creation_trace info w;
  }

  open_device-opened :
      (info : DeviceInfo) (w : World)
      → open_device api registry name info w ≡ ok ((creation info w).0, suc w.last) (opened info w)
  unfolding open_device create new_device set_device
  open_device-opened info w = ground arith

  get_device-opened :
      (info : DeviceInfo) (w : World)
      → get_device (suc w.last) (opened info w) ≡ ok (device_object info w) (opened info w)
  unfolding get_device
  get_device-opened info w = ground arith

  module _ (info : DeviceInfo) (infos : List DeviceInfo) (devices : List Ptr) (i : ℕ)
      (w : World) where
    pub device_loop-good :
        api.cuda_enabled ≡ false
        → is_ok (creation info w).0 ≡ true
        → device_loop api registry name driver i (info ∷ infos) devices w
          ≡ device_loop api registry name driver
              (suc i)
              infos
              (devices ++ suc w.last ∷ [])
              (opened info w)
    unfolding device_loop run_if_cuda_enabled
    device_loop-good host fine = ground (arith, open_device-opened info w, get_device-opened info w)

    pub device_loop-bad :
        is_ok (creation info w).0 ≡ false
        → i ≡ length devices
        → device_loop api registry name driver i (info ∷ infos) devices w ≡ fault out_of_bounds
    unfolding device_loop
    device_loop-bad bad e = rw e (
        ground (
          arith,
          open_device-opened info w,
          get_device-opened info w,
          give_up_past devices (creation info w).0 (opened info w),
        ))

  device_loop-Escapes :
      (infos : List DeviceInfo) (devices : List Ptr) (i n : ℕ) (w : World)
      → api.cuda_enabled ≡ false
      → i ≡ length devices
      → n ≡ length devices + length infos
      → Escapes
          (λ r v. (r.0 ≡ ok_status) × (length r.1 ≡ n))
          (device_loop api registry name driver i infos devices w)
  device_loop-Escapes [] devices i n w host e h = unfold device_loop in (refl, omega arith)
  device_loop-Escapes (info ∷ infos) devices i n w host e h =
      elim (Bool-cases (is_ok (creation info w).0)) [
        | inl fine ↦ rw (device_loop-good info infos devices i w host fine) (
            device_loop-Escapes infos (devices ++ suc w.last ∷ []) (suc i) n (opened info w) host
              (omega (arith, length-append {0} devices (suc w.last ∷ [])))
              (omega (arith, length-append {0} devices (suc w.last ∷ []))))
        | inr bad ↦ rw (device_loop-bad info infos devices i w bad e) tt
      ]

  -- Some device cannot be created, after those before it were.
  abbrev pub Fails : List DeviceInfo → World → Type 0
  Fails [] w = ⊥
  Fails (info ∷ infos) w =
      (is_ok (creation info w).0 ≡ false)
      ⊎ ((is_ok (creation info w).0 ≡ true) × Fails infos (opened info w))

  device_loop-Fails :
      (infos : List DeviceInfo) (devices : List Ptr) (i : ℕ) (w : World)
      → api.cuda_enabled ≡ false
      → i ≡ length devices
      → Fails infos w
      → device_loop api registry name driver i infos devices w ≡ fault out_of_bounds
  device_loop-Fails [] devices i w host e f = absurd f
  device_loop-Fails (info ∷ infos) devices i w host e (inl bad) =
      device_loop-bad info infos devices i w bad e
  device_loop-Fails (info ∷ infos) devices i w host e (inr (fine, f)) =
      rw (device_loop-good info infos devices i w host fine) (
        device_loop-Fails infos (devices ++ suc w.last ∷ []) (suc i) (opened info w) host
          (omega (arith, length-append {0} devices (suc w.last ∷ []))) f)

abbrev pub with_driver : Ptr → Text → Ptr → World → World
with_driver registry name driver w = record w {
  trace =
      acquire driver_kind driver
      ∷ call_to (codes "iree_hal_driver_registry_try_create") (registry ∷ name) []
      ∷ w.trace;
}

abbrev pub with_infos : Ptr → Text → Ptr → World → World
with_infos registry name driver w = record w {
  trace =
      call_to (codes "iree_hal_driver_query_available_devices") (driver ∷ []) []
      ∷ (with_driver registry name driver w).trace;
}

-- The library creates the driver called `name`, and then lists `infos` for it.
abbrev pub Listed : Api → Ptr → Text → Ptr → List DeviceInfo → World → Type 0
Listed api registry name driver infos w =
    (api.registry_try_create w.trace registry name ≡ (ok_status, some driver))
    × (api.query_available_devices (with_driver registry name driver w).trace driver
        ≡ (ok_status, some infos))

module _ (api : Api) (registry : Ptr) (name : Text) (driver : Ptr) (infos : List DeviceInfo)
    (w : World) where
  pub list_devices_of-loop :
      (devices : List Ptr)
      → Listed api registry name driver infos w
      → list_devices_of api registry name devices w
        ≡ device_loop api registry name driver 0 infos devices (with_infos registry name driver w)
  unfolding list_devices_of create determined
  list_devices_of-loop devices h = rw (h.0, h.1)

  -- Without CUDA, once a driver was created and lists its devices, `list_devices` of that
  -- driver into an empty vector either answers OK with one device for each, or reads past the
  -- end of the vector: its error return is never reached.
  pub list_devices_of-Escapes :
      api.cuda_enabled ≡ false
      → Listed api registry name driver infos w
      → Escapes
          (λ r v. (r.0 ≡ ok_status) × (length r.1 ≡ length infos))
          (list_devices_of api registry name [] w)
  list_devices_of-Escapes host h = rw (list_devices_of-loop [] h) (
      device_loop-Escapes api registry name driver infos [] 0 (length infos)
        (with_infos registry name driver w) host refl (omega arith))

  -- Without CUDA, when some device that the driver lists cannot be created, after those before
  -- it were, `list_devices` of that driver into an empty vector reads past the end of the
  -- vector.
  pub list_devices_of-Fails :
      api.cuda_enabled ≡ false
      → Listed api registry name driver infos w
      → Fails api registry name driver infos (with_infos registry name driver w)
      → list_devices_of api registry name [] w ≡ fault out_of_bounds
  list_devices_of-Fails host h f = rw (list_devices_of-loop [] h) (
      device_loop-Fails api registry name driver infos [] 0 (with_infos registry name driver w) host
        refl f)
