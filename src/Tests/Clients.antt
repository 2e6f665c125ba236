-- ===== src/Tests/Clients.antt =====
-- The theorems on the APIs for the browser and for Swift at concrete inputs.
use nx_iree.Base.{
  ℕ, ◌≡◌, ◌⊎◌, refl, inl, none, some, List, [], ◌∷◌, map, codes, text_eq, length, length-replicate,
  text_eq, arith,
}
use nx_iree.Base.Int.{pos}
use nx_iree.Machine.{
  Ptr, Device, World, start, update, ok, fault, null_deref, out_of_bounds, release, view_kind,
}
use nx_iree.Machine.Post.{Post, Safe}
use nx_iree.Types.{nx_type_to_iree_type}
use nx_iree.Tensor.{delete_tensor}
use nx_iree.Tensor.Lifetime.{Holds}
use nx_iree.Tensor.Fetch.{OnDevice, transferred}
use nx_iree.Browser.{Browser}
use nx_iree.Emscripten.{fetch_output}
use nx_iree.Emscripten.Values.{tensor_of_js, to_flat_array, array_of}
use nx_iree.Emscripten.Arrays.{tensor_of_js-short}
use nx_iree.Emscripten.Reads.{unread, fetch_output-ignored, to_flat_array-null}
use nx_iree.Swift.{image_call, delete_inline}
use nx_iree.Swift.Listing.{list_all_devices}
use nx_iree.Swift.Images.{IsFault, image_call-IsFault}
use nx_iree.Swift.Strings.{list_all_devices-count}
use nx_iree.Swift.Layout.{
  Abi, device, device_members, offset, offset-copied, string_type, pointer_type, size_type,
  uint64_type, uint32_type, vector_type,
}
use nx_iree.Swift.Outputs.{delete_inline-view}
use nx_iree.Tests.Library.{library, no_transfers, device_copy, two_bytes, state_with}

-- Arrays of bytes.
abbrev pub browser : Browser
browser = record {
  Val = List ℕ;
  byte_length = λ v. length v;
  converted = λ type v. map some v;
  numbers = λ v. map pos v;
  elements = λ v. map some v;
  to_string = λ n. n ∷ [];
}

-- Its vectors have one element.
abbrev short_browser : Browser
short_browser = record browser { converted = λ type v. some 8 ∷ [] }

abbrev local_device : Device
local_device = record {
  uri = codes "ab";
  ref = some 40;
  driver_name = codes "local-sync";
  id = none;
}

-- The device object is at 5, and a tensor at 2.
abbrev with_objects : World
with_objects = record (state_with device_copy) {
  devices = update start.devices 5 (some local_device);
  last = 5;
}

tensor_of_js-short_example :
    tensor_of_js library short_browser (8 ∷ 9 ∷ []) (2 ∷ []) (codes "u8") 5 with_objects
    ≡ fault out_of_bounds
unfolding nx_type_to_iree_type text_eq array_of
tensor_of_js-short_example =
    tensor_of_js-short library short_browser (8 ∷ 9 ∷ []) (2 ∷ []) (codes "u8") 5 local_device
      with_objects (codes "Uint8Array") 1 refl refl (omega arith)

fetch_output-ignored_example :
    fetch_output no_transfers 5 2 with_objects
    ≡ ok tt (transferred no_transfers 40 90 (unread no_transfers 2 device_copy with_objects) 2)
fetch_output-ignored_example =
    fetch_output-ignored no_transfers 5 2 40 local_device device_copy with_objects refl refl refl
      refl (omega arith) (omega arith) refl refl

copy_OnDevice : OnDevice 2 device_copy 40 with_objects
copy_OnDevice = record {
  here = refl;
  no_copy = refl;
  viewed = omega arith;
  on = refl;
  bounded = omega arith;
}

to_flat_array-null_example : to_flat_array library browser 2 with_objects ≡ fault null_deref
to_flat_array-null_example =
    to_flat_array-null library browser 2 40 device_copy with_objects refl
      (λ t d b n h. length-replicate n 7) copy_OnDevice (omega arith) (omega arith) refl

image_call-IsFault_example :
    IsFault (image_call library 10 40 (1 ∷ []) (1 ∷ 1 ∷ 2 ∷ []) (some two_bytes) 1 7 9 with_objects)
image_call-IsFault_example =
    image_call-IsFault library 10 40 (1 ∷ []) (1 ∷ 1 ∷ 2 ∷ []) two_bytes 1 7 9 with_objects

list_all_devices-count_example :
    Post
      (λ r v. (r ≡ (none, none)) ⊎ ((os : List Ptr) × (r ≡ (some os, some (length os)))))
      (λ e v. Unit {0})
      (list_all_devices library start)
list_all_devices-count_example = list_all_devices-count library start

device_Holds : Holds 2 device_copy with_objects
device_Holds = record { here = refl; allocated = inl refl }

delete_inline-view_example :
    Safe (λ u v. (v.tensors 2 ≡ none) × (v.trace ≡ [])) (λ e v. ⊥) (delete_inline 2 with_objects)
    × Safe
        (λ u v. (v.tensors 2 ≡ none) × (v.trace ≡ release view_kind 90 ∷ []))
        (λ e v. ⊥)
        (delete_tensor 2 with_objects)
delete_inline-view_example =
    delete_inline-view 2 device_copy with_objects device_Holds (omega arith)

abbrev host_abi : Abi
host_abi = record {
  size_of = λ type. elim type [
    | string_type ↦ 32
    | pointer_type ↦ 8
    | size_type ↦ 8
    | uint64_type ↦ 8
    | uint32_type ↦ 4
    | vector_type ↦ 24
  ];
  align_of = λ type. elim type [
    | string_type ↦ 8
    | pointer_type ↦ 8
    | size_type ↦ 8
    | uint64_type ↦ 8
    | uint32_type ↦ 4
    | vector_type ↦ 8
  ];
}

offset-copied_example : offset host_abi 0 device_members (codes "driver_name") ≡ some 40
unfolding offset text_eq
offset-copied_example = offset-copied host_abi device (codes "driver_name") 40 refl
