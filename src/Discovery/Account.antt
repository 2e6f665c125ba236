-- ===== src/Discovery/Account.antt =====
-- The references that `list_devices` of one driver holds when it returns.
use nx_iree.Base.{
  ap, ◌⊎◌, subst, codes, ℕ, suc, ◌+◌, ◌≡◌, ◌≢◌, refl, inl, inr, Option, none, some, List, [], ◌∷◌,
  ◌++◌, Text, Bool-cases, Option-cases, true, false, length, length-append, arith, ◌==◌,
  if◌then◌else◌,
}
use nx_iree.Machine.{Ptr, null, Status, ok_status, Device, World, Trace, driver_kind, device_kind}
use nx_iree.Machine.Ledger.{acquired, disposed}
use nx_iree.Machine.Post.{of_Post, Meets-mono, Meets, ends, faults, Meets-bind}
use nx_iree.Machine.Memory.{get_device, free_device, determined}
use nx_iree.Api.{Api, DeviceInfo, is_ok, create}
use nx_iree.Discovery.Devices.{
  with_driver, with_infos, opened, creation, device_loop-good, device_loop-bad,
}
use nx_iree.Discovery.{delete_device, delete_devices, device_loop, list_devices_of}

-- Every device object has a reference.
abbrev pub Referenced : World → Type 0
Referenced w =
    (q : Ptr) (d : Device) → w.devices q ≡ some d → (r : Ptr) × (d.ref ≡ some r) × (r ≢ null)

-- Since `old`, so many references to devices and to drivers were handed out and not dropped.
pub record Account (old : World) (held drivers : ℕ) (v : World) : Type 0 where
  pub devices_held :
      acquired device_kind v.trace + disposed device_kind old.trace
      ≡ acquired device_kind old.trace + disposed device_kind v.trace + held
  pub drivers_held :
      acquired driver_kind v.trace + disposed driver_kind old.trace
      ≡ acquired driver_kind old.trace + disposed driver_kind v.trace + drivers
  pub referenced : Referenced v

abbrev one_of : Ptr → ℕ
one_of p = if p == null then 0 else 1

-- A device that is created is not null, and a driver that is not created is.
pub record HandsOut (api : Api) : Type 0 where
  pub device :
      (t : Trace) (r : Ptr) (uri : Text)
      → is_ok (api.hal_create_device t r uri).0 ≡ true
      → (p : Ptr) × ((api.hal_create_device t r uri).1 ≡ some p) × (p ≢ null)
  pub no_driver :
      (t : Trace) (r : Ptr) (name : Text) (p : Ptr)
      → is_ok (api.registry_try_create t r name).0 ≡ false
      → (api.registry_try_create t r name).1 ≡ some p
      → p ≡ null

not_null : {r : Ptr} → r ≢ null → (r == null) ≡ false
not_null ne = ground arith

-- A call that does not write its out-parameter, or does, and succeeds or not.
pub out-cases :
    {A : Type 0} (x : Status × Option A)
    → ((s : Status) × (x ≡ (s, none)))
      ⊎ (((a : A) × (x ≡ (ok_status, some a)))
          ⊎ ((s : Status) × (a : A) × (is_ok s ≡ false) × (x ≡ (s, some a))))
out-cases (s, none) = inl (s, refl)
out-cases (s, some a) = elim (Bool-cases (is_ok s)) [
  | inl fine ↦ inr (inl (a, ap (λ x. (x, some a)) (ground arith)))
  | inr bad ↦ inr (inr (s, a, bad, refl))
]

module _ (old : World) where
  delete_device-Account :
      (p : Ptr) (n : ℕ) (w : World)
      → Account old (suc n) 0 w
      → Meets (λ _ v. Account old n 0 v) (λ e v. ⊥) (delete_device p w)
  unfolding delete_device get_device free_device determined acquired disposed
  delete_device-Account p n w a = elim (Option-cases (w.devices p)) [
    | inl e ↦ rw e faults
    | inr (d, e) ↦
        let (r, ref, ne) = a.referenced p d e in
        rw (e, ref, not_null ne)
          (ends (record {
            devices_held = ground (arith, a.devices_held);
            drivers_held = ground (arith, a.drivers_held);
            referenced = λ q x there. a.referenced q x (ground arith);
          }))
  ]

  pub delete_devices-Account :
      (devices : List Ptr) (w : World)
      → Account old (length devices) 0 w
      → Meets (λ _ v. Account old 0 0 v) (λ e v. ⊥) (delete_devices devices w)
  unfolding delete_devices
  delete_devices-Account [] w a = ends a
  delete_devices-Account (p ∷ devices) w a =
      Meets-bind (delete_device-Account p (length devices) w a)
        λ _ v b. delete_devices-Account devices v b

  module _ (api : Api) (host : api.cuda_enabled ≡ false) (hands : HandsOut api)
      (registry : Ptr) where
    opened-Account :
        (name : Text) (info : DeviceInfo) (driver : Ptr) (k n : ℕ) (w : World)
        → is_ok (creation api registry name driver info w).0 ≡ true
        → Account old k n w
        → Account old (suc k) n (opened api registry name driver info w)
    unfolding acquired disposed
    opened-Account name info driver k n w fine a =
        let (r, made, ne) =
          hands.device w.trace registry (name ++ (codes "://" ++ info.path)) fine in
        record {
          devices_held = ground (arith, a.devices_held, fine, made, ne);
          drivers_held = ground (arith, a.drivers_held, fine, made, ne);
          referenced = λ q d there. elim (Bool-cases (suc w.last == q)) [
            | inl e ↦ (r, ground (arith, there, made), ne)
            | inr e ↦ a.referenced q d (ground (arith, there))
          ];
        }

    -- The loop over the devices holds one reference more for each.
    device_loop-Account :
        (name : Text) (driver : Ptr) (infos : List DeviceInfo) (devices : List Ptr) (i k : ℕ)
        (w : World)
        → i ≡ length devices
        → Account old (k + length devices) (one_of driver) w
        → Meets
            (λ r v. (r.0 ≡ ok_status) × Account old (k + length r.1) 0 v)
            (λ e v. ⊥)
            (device_loop api registry name driver i infos devices w)
    device_loop-Account name driver [] devices i k w at a =
        unfold device_loop acquired disposed in
        of_Post _ (
          refl,
          record {
            devices_held = ground (arith, a.devices_held);
            drivers_held = ground (arith, a.drivers_held);
            referenced = a.referenced;
          },
        )
    device_loop-Account name driver (info ∷ infos) devices i k w at a =
        elim (Bool-cases (is_ok (creation api registry name driver info w).0)) [
          | inl fine ↦
              rw (device_loop-good api registry name driver info infos devices i w host fine) (
                device_loop-Account name driver infos (devices ++ suc w.last ∷ []) (suc i) k _
                  (omega (arith, at, length-append {0} devices (suc w.last ∷ [])))
                  (subst
                    (λ n. Account old n (one_of driver) (opened api registry name driver info w))
                    (omega (arith, length-append {0} devices (suc w.last ∷ [])))
                    (opened-Account name info driver (k + length devices) (one_of driver) w fine
                      a)))
          | inr bad ↦
              rw (device_loop-bad api registry name driver info infos devices i w bad at) faults
        ]

    -- An error leaves nothing, and a success one reference for each device.
    abbrev pub Listing : ℕ → Status × List Ptr → World → Type 0
    Listing k r v =
        (is_ok r.0 ≡ true × Account old (k + length r.1) 0 v)
        ⊎ ((is_ok r.0 ≡ false) × Account old k 0 v)

    abbrev query : Text → Ptr → World → Status × Option (List DeviceInfo)
    query name driver w =
        api.query_available_devices (with_driver registry name driver w).trace driver

    with_infos-Account :
        (name : Text) (driver : Ptr) (k : ℕ) (w : World)
        → Account old k 0 w
        → Account old k (one_of driver) (with_infos registry name driver w)
    unfolding acquired disposed
    with_infos-Account name driver k w a = record {
      devices_held = ground (arith, a.devices_held);
      drivers_held = ground (arith, a.drivers_held);
      referenced = a.referenced;
    }

    pub list_devices_of-Account :
        (name : Text) (k : ℕ) (w : World)
        → Account old k 0 w
        → Meets (Listing k) (λ e v. ⊥) (list_devices_of api registry name [] w)
    unfolding list_devices_of create determined acquired disposed
    list_devices_of-Account name k w a =
        elim (out-cases (api.registry_try_create w.trace registry name)) [
          | inl (s, e) ↦ elim (Bool-cases (is_ok s)) [
            | inl fine ↦ rw (e, fine) faults
            | inr bad ↦ rw (e, bad) faults
          ]
          | inr (inl (driver, e)) ↦ elim (out-cases (query name driver w)) [
            | inl (s, e') ↦ rw (e, e') faults
            | inr (inl (infos, e')) ↦
                rw (e, e')
                  (Meets-mono
                    (device_loop-Account name driver infos [] 0 k
                      (with_infos registry name driver w) refl
                      (subst
                        (λ n. Account old n (one_of driver) (with_infos registry name driver w))
                        (omega arith) (with_infos-Account name driver k w a)))
                    (λ r v p. inl (ground (arith, p.0), p.1)) λ x v p. p)
            | inr (inr (s, infos, bad, e')) ↦
                rw (e, e', bad)
                  (of_Post _ (
                    inr (
                      bad,
                      record {
                        devices_held = ground (arith, a.devices_held);
                        drivers_held = ground (arith, a.drivers_held);
                        referenced = a.referenced;
                      },
                    )))
          ]
          | inr (inr (s, driver, bad, e)) ↦
              let gone = hands.no_driver w.trace registry name driver (rw e bad) (rw e refl) in
              rw (e, bad, bad)
                (of_Post _ (
                  inr (
                    bad,
                    record {
                      devices_held = ground (arith, a.devices_held);
                      drivers_held = ground (arith, a.drivers_held, gone);
                      referenced = a.referenced;
                    },
                  )))
        ]
