-- ===== src/Emscripten/Bindings.antt =====
-- `EMSCRIPTEN_BINDINGS` of cmake/src/emscripten_api.h: what JavaScript sees of the module, by class.
-- A property of a member that is not const can be read and written.
use nx_iree.Base.{Bool, ℕ, Option, List, [], ◌∷◌, ◌++◌, Text, codes}
use nx_iree.Machine.{Ptr, Status, Cell, M, pure, ◌>>=◌}
use nx_iree.Machine.Memory.{get_buffer, get_device, determined}
use nx_iree.Api.{Api}
use nx_iree.Tensor
use nx_iree.Browser.{Browser}
use nx_iree.Emscripten
use nx_iree.Emscripten.Values
use nx_iree.Emscripten.Values.{TypedArray}
use nx_iree.Emscripten.SyncDevice

-- A class without members, with the name of the pointers to its objects.
pub record OpaqueType : Type 0 where
  pub name : Text
  pub pointer_name : Text

abbrev pub register_opaque_type : Text → OpaqueType
register_opaque_type name = record { name = name; pointer_name = name ++ codes "*" }

pub record Bindings (b : Browser) : Type 0 where
  pub opaque_types : List OpaqueType
  -- `Device`.
  pub device_uri : Ptr → M Text
  pub device_set_uri : Ptr → Text → M (Unit {0})
  pub device_driver_name : Ptr → M Text
  pub device_set_driver_name : Ptr → Text → M (Unit {0})
  pub device_id : Ptr → M ℕ
  pub device_set_id : Ptr → ℕ → M (Unit {0})
  -- `Tensor`.
  pub tensor_create : b.Val → b.Val → Text → Ptr → M Ptr
  pub tensor_to_flat_array : Ptr → M TypedArray
  pub tensor_deallocate : Ptr → M (Unit {0})
  pub tensor_serialize : Ptr → M (List Cell)
  -- `DataBuffer`.
  pub data_buffer_allocate : ℕ → M Ptr
  pub data_buffer_create : b.Val → M Ptr
  pub data_buffer_size : Ptr → M ℕ
  pub data_buffer_set_size : Ptr → ℕ → M (Unit {0})
  pub data_buffer_data : Ptr → M (List Cell)
  -- The functions.
  pub ensure_malloc_free : M (Unit {0})
  pub create_vm_instance : M Ptr
  pub create_device : M Ptr
  pub call : Ptr → Ptr → Ptr → List Ptr → M (Status × List Ptr)
  pub read_buffer : Ptr → Ptr → ℕ → M (Status × Option Ptr)
  pub get_status_message : Status → M Text
  pub register_all_drivers : Ptr → M Status
  pub status_is_ok : Status → M Bool

abbrev pub my_module : (api : Api) (b : Browser) → Bindings b
my_module api b = record {
  opaque_types =
      register_opaque_type (codes "VMInstance")
      ∷ register_opaque_type (codes "DriverRegistry")
      ∷ register_opaque_type (codes "Status")
      ∷ [];
  device_uri = λ device. (do this ← get_device device; pure this.uri);
  device_set_uri = Emscripten.set_uri;
  device_driver_name = λ device. (do this ← get_device device; pure this.driver_name);
  device_set_driver_name = Emscripten.set_driver_name;
  device_id = λ device. (do this ← get_device device; determined this.id);
  device_set_id = Emscripten.set_id;
  tensor_create = Values.tensor_of_js api b;
  tensor_to_flat_array = Values.to_flat_array api b;
  tensor_deallocate = Tensor.deallocate;
  tensor_serialize = Emscripten.serialize_iree_tensor api;
  data_buffer_allocate = Emscripten.new_data_buffer api;
  data_buffer_create = Values.data_buffer_of_js api b;
  data_buffer_size = λ buffer. (do this ← get_buffer buffer; pure this.size);
  data_buffer_set_size = Emscripten.set_buffer_size;
  data_buffer_data = Values.get_data api b;
  ensure_malloc_free = Emscripten.ensure_malloc_free api;
  create_vm_instance = Emscripten.create_vm_instance api;
  create_device = SyncDevice.create_local_sync_device api;
  call = Emscripten.run_call api;
  read_buffer = Emscripten.read_data api;
  get_status_message = Emscripten.status_message api;
  register_all_drivers = Emscripten.register_drivers api;
  status_is_ok = Emscripten.status_is_ok;
}
