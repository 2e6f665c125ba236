-- ===== src/Tests/Tensors.antt =====
-- The theorems on tensors at concrete inputs.
use nx_iree.Base.{
  take, ◌≡◌, refl, inl, inr, none, some, [], ◌∷◌, arith, replicate, length-replicate,
}
use nx_iree.Machine.{World, ok, fault, out_of_bounds, start}
use nx_iree.Tensor.{serialize, deserialize, wire}
use nx_iree.Tensor.RoundTrip.{IsTensor}
use nx_iree.Tensor.Lifetime.{
  Holds, deallocated, emptied, with_copy, deallocate_lem, serialize-deallocate,
}
use nx_iree.Tensor.Fetch.{OnDevice, filled, serialize-OnDevice, serialize_retry}
use nx_iree.Tensor.Bytes.{le_bytes}
use nx_iree.Tensor.Truncated.{deserialize-truncated}
use nx_iree.Tests.Library.{library, no_transfers, host_copy, device_copy, two_bytes, state_with}

host_copy-IsTensor : IsTensor host_copy
host_copy-IsTensor = record {
  type_fits = omega arith;
  size_fits = omega arith;
  dims_fit = ground arith;
  rank_fits = omega arith;
}

host_Holds : Holds 2 host_copy (state_with host_copy)
host_Holds = record { here = refl; allocated = inr (two_bytes, refl) }

device_Holds : Holds 2 device_copy (state_with device_copy)
device_Holds = record { here = refl; allocated = inl refl }

serialize-deallocate_example :
    serialize library 2 (deallocated 2 host_copy (state_with host_copy))
    ≡ ok (some (wire host_copy (replicate 2 none))) (
        with_copy 2
          (emptied host_copy)
          (replicate 2 none)
          (deallocated 2 host_copy (state_with host_copy)))
serialize-deallocate_example =
    serialize-deallocate library 2 host_copy (state_with host_copy)
      (deallocated 2 host_copy (state_with host_copy)) host_Holds
      (deallocate_lem 2 host_copy (state_with host_copy) host_Holds) refl

device_copy-OnDevice : OnDevice 2 device_copy 40 (state_with device_copy)
device_copy-OnDevice = record {
  here = refl;
  no_copy = refl;
  viewed = omega arith;
  on = refl;
  bounded = omega arith;
}

serialize-OnDevice_example :
    serialize library 2 (state_with device_copy)
    ≡ ok
        (some (wire device_copy (some 7 ∷ some 7 ∷ [])))
        (filled library 2 40 device_copy (state_with device_copy) (some 7 ∷ some 7 ∷ []))
serialize-OnDevice_example =
    serialize-OnDevice library 2 40 device_copy (state_with device_copy) refl
      (λ t d b n h. length-replicate n 7) device_copy-OnDevice refl refl

serialize_retry_example :
    (v : World) × (serialize no_transfers 2 (state_with device_copy) ≡ ok none v)
    × (serialize no_transfers 2 v ≡ ok (some (wire device_copy (replicate 2 none))) v)
serialize_retry_example =
    serialize_retry no_transfers 2 40 device_copy (state_with device_copy) refl device_copy-OnDevice
      refl (omega arith) refl

deserialize-truncated_example :
    deserialize library (take 20 (wire host_copy two_bytes)) start ≡ fault out_of_bounds
unfolding wire le_bytes
deserialize-truncated_example =
    deserialize-truncated library host_copy two_bytes (λ t n. refl) host_copy-IsTensor refl 20 start
      (omega arith)
