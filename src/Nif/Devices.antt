-- ===== src/Nif/Devices.antt =====
-- The handlers on instances, drivers and devices of c_src/nx_iree.cc: `create_instance`,
-- `create_device`, `get_driver_registry`, `list_devices` and `list_drivers`.
use nx_iree.Base.{Option, none, some, List, [], ◌∷◌, map, codes, if◌then◌else◌}
use nx_iree.Machine.{Ptr, Status, Driver, M, pure, ◌>>=◌}
use nx_iree.Machine.Memory.{get_device, determined}
use nx_iree.Api.{Api, is_ok}
use nx_iree.Status.{get_status_message}
use nx_iree.Discovery.{list_devices_of}
use nx_iree.Discovery
use nx_iree.Erlang.{Env, vm_instance, hal_device, driver_registry}
use nx_iree.Nif.Terms.{argument, make, get, error, ok_term, get_string}

module _ (api : Api) (e : Env) where
  open e use {Term}

  unfoldable pub create_instance : M Term
  create_instance = do vm ← Discovery.create_instance api; pure (ok_term e (make e vm_instance vm))

  -- It only looks at the registry.
  unfoldable pub create_device : Term → Term → M Term
  create_device a0 a1 =
      argument e (codes "invalid driver registry") (get e driver_registry a0)
        λ registry. pure (e.make_atom (codes "ok"))

  unfoldable pub get_driver_registry : M Term
  get_driver_registry = do
    registry ← Discovery.get_driver_registry api
    pure (ok_term e (make e driver_registry registry))

  -- One device as Elixir gets it: reference, driver name, URI and id.
  unfoldable pub device_term : Ptr → M Term
  device_term p = do
    d ← get_device p
    ref ← determined d.ref
    id ← determined d.id
    pure (
        e.make_tuple (
          make e hal_device ref
          ∷ e.make_string d.driver_name
          ∷ e.make_string d.uri
          ∷ e.make_uint64 id
          ∷ []))

  unfoldable pub device_terms : List Ptr → M (List Term)
  unfolding device_term
  device_terms [] = pure []
  device_terms (p ∷ devices) = do
    term ← device_term p
    terms ← device_terms devices
    pure (term ∷ terms)

  -- The answer, from what `list_devices` returned.
  unfoldable pub answer_devices : Status × List Ptr → M Term
  unfolding device_terms
  answer_devices (status, devices) =
      if is_ok status
      then (do terms ← device_terms devices; pure (ok_term e (e.make_list terms)))
      else (do message ← get_status_message api status; pure (error e message))

  -- With one argument all drivers are asked, with two the one that is named.
  unfoldable pub list_devices : Term → Option Term → M Term
  unfolding answer_devices
  list_devices a0 none =
      argument e (codes "invalid driver registry") (get e driver_registry a0)
        λ registry. (do result ← Discovery.list_devices api registry []; answer_devices result)
  list_devices a0 (some a1) =
      argument e (codes "invalid driver registry") (get e driver_registry a0) λ registry.
        argument e (codes "invalid driver name") (get_string e a1) λ driver_name. (do
          result ← list_devices_of api registry driver_name []
          answer_devices result)

  unfoldable pub driver_term : Driver → Term
  driver_term d = e.make_tuple (e.make_string d.name ∷ e.make_string d.full_name ∷ [])

  unfoldable pub answer_drivers : Status × List Driver → M Term
  unfolding driver_term
  answer_drivers (status, drivers) =
      if is_ok status
      then pure (ok_term e (e.make_list (map driver_term drivers)))
      else (do message ← get_status_message api status; pure (error e message))

  unfoldable pub list_drivers : Term → M Term
  unfolding answer_drivers
  list_drivers a0 =
      argument e (codes "invalid driver registry") (get e driver_registry a0)
        λ registry. (do result ← Discovery.list_drivers api registry; answer_drivers result)
