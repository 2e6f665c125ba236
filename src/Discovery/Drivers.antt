-- ===== src/Discovery/Drivers.antt =====
-- What `create_instance` and `list_drivers` answer, and the references that they keep.
use nx_iree.Base.{
  contains, false, ◌&&◌, ◌+◌, ◌≡◌, refl, ◌≢◌, ◌↔◌, ◌⊎◌, inl, inr, some, List, [], ◌∷◌, codes,
  text_eq_iff, Bool-cases, if◌then◌else◌, ◌==◌, arith, Text,
}
use mathlib.Core.Option.{get_or}
use nx_iree.Machine.{Ptr, null, Status, ok_status, Driver, World, instance_kind, device_kind, Trace}
use nx_iree.Machine.Ledger.{acquired, disposed, Owed}
use nx_iree.Machine.Post.{Safe}
use nx_iree.Machine.Memory.{determined}
use nx_iree.Api.{Api, create, perform, is_ok}
use nx_iree.Tensor.{run_if_cuda_enabled}
use nx_iree.Discovery.{create_instance, create_device, keep_drivers, list_drivers}

-- `create_instance` returns without undefined behaviour, and the instance it returns is the
-- only reference that it keeps: when it returns null it has given back what it was given.
pub create_instance-balance :
    (api : Api) (w : World)
    → Safe
        (λ p v.
          acquired instance_kind v.trace + disposed instance_kind w.trace
          ≡ acquired instance_kind w.trace
            + disposed instance_kind v.trace
            + (if p == null then 0 else 1))
        (λ e v. ⊥)
        (create_instance api w)
unfolding create_instance create perform acquired disposed
create_instance-balance api w = ground arith

-- A driver stands in a list.
abbrev pub In : Driver → List Driver → Type 0
In d [] = ⊥
In d (x ∷ xs) = (d ≡ x) ⊎ In d xs

pub keep_drivers_iff :
    (d : Driver) (infos : List Driver)
    → In d (keep_drivers infos) ↔ (In d infos × (d.name ≢ codes "hip"))
unfolding keep_drivers
keep_drivers_iff d [] = (λ h. absurd h, λ h. absurd h.0)
keep_drivers_iff d (x ∷ xs) =
    ground (arith, keep_drivers_iff d xs, text_eq_iff x.name (codes "hip"))

-- When the library enumerates drivers, `list_drivers` passes its status on, and a driver is in
-- the answer just if that status is OK, the library enumerates it, and its name is not `hip`.
pub list_drivers_iff :
    (api : Api) (registry : Ptr) (w : World) (s : Status) (infos : List Driver)
    → api.registry_enumerate w.trace registry ≡ (s, some infos)
    → Safe
        (λ r v.
          (r.0 ≡ s)
          × ((d : Driver) → In d r.1 ↔ ((s ≡ ok_status) × In d infos × (d.name ≢ codes "hip"))))
        (λ e v. ⊥)
        (list_drivers api registry w)
unfolding list_drivers determined
list_drivers_iff api registry w s infos e = elim (Bool-cases (is_ok s)) [
  | inl fine ↦ rw (e, fine) (ground arith, λ d. ground (arith, keep_drivers_iff d infos))
  | inr bad ↦ rw (e, bad) (refl, λ d. ground arith)
]

-- Without CUDA, or for a URI that names no CUDA device, when the library, on a failure, leaves
-- no device behind, `create_device` returns without undefined behaviour and drops no reference
-- to a device, and it holds one reference to the device that it returns, or none when it
-- returns null, which it does on a failure.
pub create_device-balance :
    (api : Api) (registry : Ptr) (uri : Text) (w : World)
    → (api.cuda_enabled && contains uri (codes "cuda://")) ≡ false
    → ((t : Trace)
        → (api.hal_create_device t registry uri).0 ≢ ok_status
        → get_or (api.hal_create_device t registry uri).1 null ≡ null)
    → Safe
        (λ p v.
          (p ≢ null → Owed device_kind 1 w v)
          × (p ≡ null → acquired device_kind v.trace ≡ acquired device_kind w.trace)
          × (disposed device_kind v.trace ≡ disposed device_kind w.trace)
          × ((api.hal_create_device w.trace registry uri).0 ≢ ok_status → p ≡ null))
        (λ e v. ⊥)
        (create_device api registry uri w)
unfolding create_device run_if_cuda_enabled create determined acquired disposed
create_device-balance api registry uri w host refused = rw host (ground (arith, refused w.trace))
