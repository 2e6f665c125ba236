-- ===== src/Runtime.antt =====
-- The functions that cmake/src/runtime.h declares for the front ends.
use nx_iree.Base.{ℕ, Option, List, Text, Bool}
use nx_iree.Machine.{Ptr, Status, Driver, M}
use nx_iree.Api
use nx_iree.Api.{Api}
use nx_iree.Types
use nx_iree.Tensor
use nx_iree.Status
use nx_iree.Discovery
use nx_iree.Call

pub record Runtime : Type 0 where
  pub nx_type_to_iree_type : Text → ℕ
  pub create_instance : M Ptr
  pub get_driver_registry : M Ptr
  pub create_device : Ptr → Text → M Ptr
  pub call : Ptr → Ptr → Text → List ℕ → List Ptr → M (Status × Option (List Ptr))
  pub read_buffer : Option Ptr → Ptr → Ptr → ℕ → M Status
  pub get_status_message : Status → M Text
  pub register_all_drivers : Ptr → M Status
  pub list_drivers : Ptr → M (Status × List Driver)
  -- Of all drivers, or of the one that is named, added to a vector.
  pub list_devices : Ptr → List Ptr → M (Status × List Ptr)
  pub list_devices_of : Ptr → Text → List Ptr → M (Status × List Ptr)
  pub is_ok : Status → Bool

abbrev pub runtime : Api → Runtime
runtime api = record {
  nx_type_to_iree_type = Types.nx_type_to_iree_type;
  create_instance = Discovery.create_instance api;
  get_driver_registry = Discovery.get_driver_registry api;
  create_device = Discovery.create_device api;
  call = Call.call api;
  read_buffer = Tensor.read_buffer api;
  get_status_message = Status.get_status_message api;
  register_all_drivers = Discovery.register_all_drivers api;
  list_drivers = Discovery.list_drivers api;
  list_devices = Discovery.list_devices api;
  list_devices_of = Discovery.list_devices_of api;
  is_ok = Api.is_ok;
}
