-- ===== src/Discovery/Balance.antt =====
-- The references that `list_devices` over all drivers holds when it returns.
use nx_iree.Base.{
  subst, ℕ, ◌≡◌, ◌≢◌, refl, inl, inr, List, [], ◌∷◌, ◌++◌, Bool-cases, false, length, length-append,
  arith,
}
use nx_iree.Machine.{Ptr, Status, ok_status, Driver, World}
use nx_iree.Machine.Ledger.{acquired, disposed}
use nx_iree.Machine.Post.{of_Post, Post, Meets, ends, faults, Meets-bind, to_Post}
use nx_iree.Machine.Memory.{determined}
use nx_iree.Api.{Api, is_ok}
use nx_iree.Discovery.{driver_loop, list_drivers, list_devices}
use nx_iree.Discovery.Account.{
  Referenced, Account, HandsOut, out-cases, delete_devices-Account, list_devices_of-Account,
}

module _ (old : World) (api : Api) (host : api.cuda_enabled ≡ false) (hands : HandsOut api)
    (registry : Ptr) where
  -- One reference for each device of the answer, and an error answers with none.
  abbrev Answered : Status × List Ptr → World → Type 0
  Answered r v = Account old (length r.1) 0 v × (r.0 ≢ ok_status → r.1 ≡ [])

  driver_loop-Account :
      (drivers : List Driver) (devices : List Ptr) (w : World)
      → Account old (length devices) 0 w
      → Meets Answered (λ e v. ⊥) (driver_loop api registry drivers devices w)
  unfolding driver_loop
  driver_loop-Account [] devices w a = ends (a, λ ne. absurd (ne refl))
  driver_loop-Account (driver ∷ drivers) devices w a =
      Meets-bind
        (list_devices_of-Account old api host hands registry driver.name (length devices) w a)
        λ r u p. elim p [
          | inl (fine, b) ↦ rw fine (
              driver_loop-Account drivers (devices ++ r.1) u
                (subst (λ n. Account old n 0 u) (omega (arith, length-append {0} devices r.1)) b))
          | inr (bad, b) ↦
              rw bad
                (Meets-bind (delete_devices-Account old devices u b) λ _ v c. ends (c, λ ne. refl))
        ]

  list_drivers-Account :
      (k : ℕ) (w : World)
      → Account old k 0 w
      → Meets (λ r v. Account old k 0 v) (λ e v. ⊥) (list_drivers api registry w)
  unfolding list_drivers determined acquired disposed
  list_drivers-Account k w a = elim (out-cases (api.registry_enumerate w.trace registry)) [
    | inl (s, e) ↦ rw e faults
    | inr (inl (infos, e)) ↦ rw e (
        of_Post _ (record {
          devices_held = ground (arith, a.devices_held);
          drivers_held = ground (arith, a.drivers_held);
          referenced = a.referenced;
        }))
    | inr (inr (s, infos, bad, e)) ↦
        rw (e, bad)
          (of_Post _ (record {
            devices_held = ground (arith, a.devices_held);
            drivers_held = ground (arith, a.drivers_held);
            referenced = a.referenced;
          }))
  ]

  list_devices-Account :
      (w : World) → Account old 0 0 w → Meets Answered (λ e v. ⊥) (list_devices api registry [] w)
  unfolding list_devices
  list_devices-Account w a = Meets-bind (list_drivers-Account 0 w a) λ r u b.
      elim (Bool-cases (is_ok r.0)) [
        | inl fine ↦ rw fine (driver_loop-Account r.1 [] u b)
        | inr bad ↦ rw bad (ends (b, λ ne. refl))
      ]

-- Without CUDA, whenever `list_devices` over all drivers ends without undefined behaviour from
-- an empty vector, it throws nothing and holds as many references to devices as its vector has
-- devices, and none to a driver; on an error the vector is empty. Device objects have
-- references, the library gives out devices that are not null, and no driver where it does not
-- create one.
pub list_devices-balance :
    (api : Api) (registry : Ptr) (w : World)
    → api.cuda_enabled ≡ false
    → HandsOut api
    → Referenced w
    → Post
        (λ r v. Account w (length r.1) 0 v × (r.0 ≢ ok_status → r.1 ≡ []))
        (λ e v. ⊥)
        (list_devices api registry [] w)
list_devices-balance api registry w host hands referenced = to_Post (
    list_devices-Account w api host hands registry w
      (record { devices_held = omega arith; drivers_held = omega arith; referenced = referenced }))
