-- ===== src/Tests/Drivers.antt =====
-- The theorems on instances, drivers and devices at concrete inputs.
use nx_iree.Base.{arith, ◌≡◌, ◌≢◌, ◌↔◌, refl, inl, inr, [], ◌∷◌, length, codes, text_eq}
use nx_iree.Machine.{start, ok_status, fault, out_of_bounds, device_kind, Driver}
use nx_iree.Machine.Post.{Post, Safe}
use nx_iree.Machine.Ledger.{acquired, disposed, Owed}
use nx_iree.Discovery.{list_devices, create_device, list_drivers, list_devices_of}
use nx_iree.Discovery.Drivers.{In, create_device-balance, list_drivers_iff}
use nx_iree.Discovery.Devices.{list_devices_of-Fails}
use nx_iree.Discovery.Account.{Account}
use nx_iree.Discovery.Balance.{list_devices-balance}
use nx_iree.Erlang.{hal_device, driver_registry}
use nx_iree.Nif.Terms.{ok_term, get_string}
use nx_iree.Nif.Devices
use nx_iree.Nif.Listing.{list_devices-all_shown}
use nx_iree.Base.{Text, map, some}
use nx_iree.Base.Int.{ℤ, pos}
use nx_iree.Tests.Library.{
  library, one_device, cpu, hip, device_infos, emulator, Term, int_term, binary_term, string_term,
  tuple_term, resource_term, cells, list_length, binary_of, bytes_of, resource_of,
}

create_device-balance_example :
    Safe
      (λ p v.
        (p ≢ 0 → Owed device_kind 1 start v)
        × (p ≡ 0 → acquired device_kind v.trace ≡ acquired device_kind [])
        × (disposed device_kind v.trace ≡ disposed device_kind [])
        × (ok_status ≢ ok_status → p ≡ 0))
      (λ e v. ⊥)
      (create_device library 20 (codes "cuda://0") start)
create_device-balance_example =
    create_device-balance library 20 (codes "cuda://0") start refl λ t bad. absurd (bad refl)

list_drivers_iff_example :
    Safe
      (λ r v.
        (r.0 ≡ ok_status)
        × ((d : Driver)
            → In d r.1
              ↔ ((ok_status ≡ ok_status) × In d (cpu ∷ hip ∷ []) × (d.name ≢ codes "hip"))))
      (λ e v. ⊥)
      (list_drivers library 20 start)
list_drivers_iff_example = list_drivers_iff library 20 start ok_status (cpu ∷ hip ∷ []) refl

abbrev local_sync : Text
local_sync = codes "local-sync"

-- What Elixir gets of a device.
abbrev device_shown : Text → ℤ → Term
device_shown uri id = tuple_term (
    cells
      (resource_term hal_device 40 ∷ string_term local_sync ∷ string_term uri ∷ int_term id ∷ []))

list_devices-all_shown_example :
    Safe
      (λ r v.
        r
        ≡ ok_term emulator (
            cells (
              device_shown (codes "local-sync://a") (pos 0)
              ∷ device_shown (codes "local-sync://b") (pos 1)
              ∷ [])))
      (λ e v. ⊥)
      (Devices.list_devices library emulator
        (resource_term driver_registry 20)
        (some (binary_term (map some local_sync)))
        start)
unfolding get_string list_length binary_of bytes_of resource_of
list_devices-all_shown_example =
    list_devices-all_shown library emulator 20 local_sync 30 device_infos start
      (resource_term driver_registry 20) (binary_term (map some local_sync)) refl refl refl
      (refl, refl) (40, refl, (40, refl, tt))

list_devices_of-Fails_example :
    list_devices_of one_device 20 (codes "local-sync") [] start ≡ fault out_of_bounds
unfolding text_eq
list_devices_of-Fails_example =
    list_devices_of-Fails one_device 20 (codes "local-sync") 30 device_infos start refl (refl, refl)
      (inr (refl, inl refl))

list_devices-balance_example :
    Post
      (λ r v. Account start (length r.1) 0 v × (r.0 ≢ ok_status → r.1 ≡ []))
      (λ e v. ⊥)
      (list_devices library 20 [] start)
list_devices-balance_example =
    list_devices-balance library 20 start refl
      (record {
        device = λ t r uri fine. (40, refl, omega arith);
        no_driver = λ t r name p bad e. absurd (ground (arith, bad));
      })
      λ q d there. absurd (ground (arith, there))
