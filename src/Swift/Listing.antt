-- ===== src/Swift/Listing.antt =====
-- `nx_iree_list_all_devices` of c_src/nx_iree.cpp of the Swift client.
use nx_iree.Base.{ℕ, ◌+◌, ◌*◌, Option, none, some, List, [], ◌∷◌, map, length, ◌==◌, if◌then◌else◌}
use nx_iree.Machine.{Ptr, null, M, pure, ◌>>=◌, ◌>>◌, fail, null_deref}
use nx_iree.Machine.Memory.{malloc, operator_new, store, get_device}
use nx_iree.Api.{Api, is_ok}
use nx_iree.Discovery

module _ (api : Api) where
  -- A copy of a device's URI, in one byte more than it has.
  unfoldable pub copy_uri : Ptr → M Ptr
  copy_uri p = do
    d ← get_device p
    output ← operator_new api.can_alloc (length d.uri + 1)
    store output (map some d.uri)
    pure output

  -- The loop over the devices left; it writes to the array that was allocated.
  unfoldable pub copy_uris : Ptr → List Ptr → M (List Ptr)
  unfolding copy_uri
  copy_uris array [] = pure []
  copy_uris array (p ∷ devices) = do
    output ← copy_uri p
    if array == null then fail null_deref else pure tt
    outputs ← copy_uris array devices
    pure (output ∷ outputs)

  -- `nx_iree_list_all_devices`: the array, and what is written at `count`, if anything is.
  unfoldable pub list_all_devices : M (Option (List Ptr) × Option ℕ)
  unfolding copy_uris
  list_all_devices = do
    registry ← Discovery.get_driver_registry api
    (status, devices) ← Discovery.list_devices api registry []
    if is_ok status
        then (do
          array ← malloc api.can_alloc (8 * length devices)
          outputs ← copy_uris array devices
          pure (some outputs, some (length devices)))
        else pure (none, none)
