-- ===== src/Ownership/Exports.antt =====
-- Sequences of calls of the C functions that Swift sees (c_src/nx_iree.h of the client).
use nx_iree.Base.{
  ℕ, zero, suc, ◌≡◌, ◌≢◌, Option, none, some, List, [], ◌∷◌, Text, map, arith, length, leb, false,
}
use nx_iree.Base.Int.{to_i64}
use nx_iree.Machine.{Ptr, Cell, World, M, Res, pure, ◌>>=◌, ok, fault, double_free, start}
use nx_iree.Machine.Memory.{split_at}
use nx_iree.Api.{Api}
use nx_iree.Tensor.{tensor_of_data}
use nx_iree.Tensor.Bytes.{le_bytes, length-le_bytes}
use nx_iree.Types.{float_32, uint_8, uint_32}
use nx_iree.Discovery
use nx_iree.Swift
use nx_iree.Swift.{read_dims, product, image_inputs, image_call}
use nx_iree.Swift.Listing.{copy_uri, copy_uris, list_all_devices}
use nx_iree.Ownership.Heap.{IsOwned, Owned, start-Owned}
use nx_iree.Ownership.Rules.{
  Run, Run-bind, Kept, Kept-bind, Kept-Owned, Kept-NoDoubleFree, ends, faults, kept_rules,
}
use nx_iree.Ownership.Memory.{memory_rules}
use nx_iree.Ownership.Ready.{malloc-Ready}
use nx_iree.Ownership.Tensors.{tensor_of_data-Kept, run_if_cuda_enabled-Kept}
use nx_iree.Ownership.Devices.{
  create-Kept, create_instance-Kept, get_driver_registry-Kept, list_devices-Kept, perform-Kept,
}
use nx_iree.Ownership.Swift.{run_call-Kept}

read_dims-Kept : (n : ℕ) (dims : List ℕ) (w : World) → Owned w → Kept (read_dims n dims w)
unfolding read_dims
read_dims-Kept zero dims w h = ends h
read_dims-Kept (suc n) [] w h = faults tt
read_dims-Kept (suc n) (d ∷ dims) w h = Kept-bind (read_dims-Kept n dims w h) λ ds v k. ends k

-- A run that does not come to its end.
abbrev Never : {A : Type 0} → Res A → Type 0
Never = Run IsOwned (λ a v. ⊥)

split_at-Never :
    (n : ℕ) (b : List Cell) (w : World) → leb n (length b) ≡ false → Never (split_at n b w)
unfolding split_at
split_at-Never n b w short = rw short (faults tt)

module _ (api : Api) where
  copy_uri-Kept : (p : Ptr) (w : World) → Owned w → Kept (copy_uri api p w)
  unfolding copy_uri
  copy_uri-Kept p w h = search memory_rules depth 12

  copy_uris-Kept :
      (array : Ptr) (ps : List Ptr) (w : World) → Owned w → Kept (copy_uris api array ps w)
  unfolding copy_uris
  copy_uris-Kept array [] w h = ends h
  copy_uris-Kept array (p ∷ ps) w h =
      search (kept_rules, copy_uri-Kept, copy_uris-Kept array ps) depth 12

  list_all_devices-Kept : (w : World) → Owned w → Kept (list_all_devices api w)
  unfolding list_all_devices
  list_all_devices-Kept w h =
      search (memory_rules, get_driver_registry-Kept, list_devices-Kept, copy_uris-Kept) depth 16

  create_device-Kept : (uri : Text) (w : World) → Owned w → Kept (Swift.create_device api uri w)
  unfolding Swift.create_device Discovery.create_device Discovery.register_all_drivers
  create_device-Kept uri w h =
      search
        (kept_rules, get_driver_registry-Kept, perform-Kept, create-Kept, run_if_cuda_enabled-Kept)
        depth 16

  noise-Never :
      (noise : ℕ) (w : World)
      → Owned w
      → Never (tensor_of_data api (le_bytes 4 noise) 8 [] float_32 w)
  unfolding tensor_of_data
  noise-Never noise w h = Run-bind (malloc-Ready api.can_alloc 8 w h) λ p v r.
      Run-bind (split_at-Never 8 (le_bytes 4 noise) v (ground (arith, length-le_bytes 4 noise)))
        λ a u x. absurd x

  image_call-Kept :
      (vm device : Ptr) (bytecode dims : List ℕ) (input : Option (List Cell))
      (message seed noise : ℕ) (w : World)
      → Owned w
      → Kept (image_call api vm device bytecode dims input message seed noise w)
  unfolding image_call image_inputs
  image_call-Kept vm device bytecode dims none message seed noise w h = ends h
  image_call-Kept vm device bytecode dims (some input) message seed noise w h =
      Kept-bind (read_dims-Kept 3 dims w h) λ ds v k.
        Run-bind
          (Run-bind (tensor_of_data-Kept api input (product 1 ds) (map to_i64 ds) uint_8 v k)
            λ image u j.
              Run-bind (tensor_of_data-Kept api (le_bytes 4 seed) 4 [] uint_32 u j)
                λ seeds t i. Run-bind (noise-Never noise t i) λ p s x. absurd x)
          λ ps u x. absurd x

-- A call of an exported function.
pub data Export : Type 0 where
  instance_created devices_listed : Export
  device_created : Text → Export
  device_released : Ptr → Export
  called : Ptr → Ptr → List ℕ → List (List Cell) → ℕ → Ptr → Export
  image_called : Ptr → Ptr → List ℕ → List ℕ → Option (List Cell) → Ptr → ℕ → ℕ → Export

module _ (api : Api) where
  -- What is run; the answer goes to Swift.
  unfoldable pub perform_export : Export → M (Unit {0})
  perform_export instance_created = do p ← Swift.create_instance api; pure tt
  perform_export devices_listed = do r ← list_all_devices api; pure tt
  perform_export (device_created uri) = do p ← Swift.create_device api uri; pure tt
  perform_export (device_released p) = Swift.release_device p
  perform_export (called vm device code inputs n message) = do
    r ← Swift.run_call api vm device code inputs n message
    pure tt
  perform_export (image_called vm device code dims input message seed noise) = do
    r ← image_call api vm device code dims input message seed noise
    pure tt

  -- The states that calls lead to, each run to its end.
  pub data Sequence : World → Type 0 where
    begin : Sequence start
    next : {w v : World} (a : Export) → Sequence w → perform_export a w ≡ ok tt v → Sequence v

  perform_export-Kept : (a : Export) (w : World) → Owned w → Kept (perform_export a w)
  unfolding perform_export Swift.create_instance Swift.release_device
  perform_export-Kept instance_created w h = search (kept_rules, create_instance-Kept)
  perform_export-Kept devices_listed w h = search (kept_rules, list_all_devices-Kept)
  perform_export-Kept (device_created uri) w h = search (kept_rules, create_device-Kept)
  perform_export-Kept (device_released p) w h = ends h
  perform_export-Kept (called vm device code inputs n message) w h =
      search (kept_rules, run_call-Kept)
  perform_export-Kept (image_called vm device code dims input message seed noise) w h =
      search (kept_rules, image_call-Kept)

  Sequence-Owned : {w : World} → Sequence w → Owned w
  Sequence-Owned begin = start-Owned
  Sequence-Owned (next {w} a s e) = Kept-Owned (perform_export-Kept a w (Sequence-Owned s)) e

  -- In every state that a sequence of calls of the C functions that Swift sees leads to, each
  -- with any arguments and run to its end, whatever the library answers, host copies are
  -- allocated, have their tensor's size and are not shared; and no call of such a function in
  -- that state frees a block twice.
  pub Sequence-NoDoubleFree :
      (w : World) → Sequence w → Owned w × ((a : Export) → perform_export a w ≢ fault double_free)
  Sequence-NoDoubleFree w s =
      (Sequence-Owned s, λ a. Kept-NoDoubleFree (perform_export-Kept a w (Sequence-Owned s)))
