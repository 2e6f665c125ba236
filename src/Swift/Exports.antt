-- ===== src/Swift/Exports.antt =====
-- The C functions that Swift sees: c_src/nx_iree.h of the client. A null result is `none`.
use nx_iree.Base.{ℕ, Option, List, Text}
use nx_iree.Machine.{Ptr, Cell, M}
use nx_iree.Api.{Api}
use nx_iree.Swift
use nx_iree.Swift.Listing

pub record Exports : Type 0 where
  pub create_instance : M Ptr
  pub create_device : Text → M Ptr
  pub release_device : Ptr → M (Unit {0})
  -- Instance, device, bytecode, inputs, the number of outputs, and where a message goes; the bytes
  -- of the outputs and their sizes.
  pub call : Ptr → Ptr → List ℕ → List (List Cell) → ℕ → Ptr → M (Option (List (Ptr × ℕ)))
  -- Instance, device, bytecode, dimensions, the image, where a message goes, seed and noise.
  pub image_call : Ptr → Ptr → List ℕ → List ℕ → Option (List Cell) → Ptr → ℕ → ℕ → M (Option Ptr)
  -- The URIs, and their number.
  pub list_all_devices : M (Option (List Ptr) × Option ℕ)

abbrev pub exports : Api → Exports
exports api = record {
  create_instance = Swift.create_instance api;
  create_device = Swift.create_device api;
  release_device = Swift.release_device;
  call = Swift.run_call api;
  image_call = Swift.image_call api;
  list_all_devices = Listing.list_all_devices api;
}
