-- ===== src/Tests/Library.antt =====
-- A library that grants every wish, a library that refuses some, and an emulator with plain terms.
use nx_iree.Base.{
  ℕ, suc, Option, none, some, List, [], ◌∷◌, Bool, true, false, Text, codes, length, take,
  replicate, text_eq, if◌then◌else◌,
}
use nx_iree.Base.Int.{ℤ, pos}
use nx_iree.Machine.{Ptr, Cell, ok_status, Driver, World, Tensor, start, update}
use nx_iree.Api.{Api, DeviceInfo}
use nx_iree.Types.{uint_8}
use nx_iree.Erlang.{Env, ResourceType, vm_instance, hal_device, driver_registry, tensor}

abbrev pub cpu : Driver
cpu = record { name = codes "local-sync"; full_name = codes "Local" }

abbrev pub hip : Driver
hip = record { name = codes "hip"; full_name = codes "HIP" }

abbrev pub device_infos : List DeviceInfo
device_infos =
    record { path = codes "a"; device_id = 0 } ∷ record { path = codes "b"; device_id = 1 } ∷ []

abbrev pub library : Api
library = record {
  can_alloc = λ t n. true;
  cuda_enabled = false;
  view_byte_length = λ t v. 2;
  view_shape_rank = λ t v. 1;
  view_shape_dims = λ t v. 2 ∷ [];
  view_element_type = λ t v. uint_8;
  view_buffer = λ t v. v;
  buffer_byte_length = λ t b. 2;
  device_id = λ t d. codes "local-sync";
  transfer_d2h = λ t d b n. (ok_status, replicate n 7);
  allocate_buffer_copy = λ t d dims type bytes. (ok_status, some 60);
  status_to_string = λ t s. some (codes "error");
  not_found = λ i. 5;
  instance_create = λ t. (ok_status, some 10);
  register_all_types = λ t i. ok_status;
  register_all_available_drivers = λ t r. ok_status;
  available_driver_registry = λ t. 20;
  registry_enumerate = λ t r. (ok_status, some (cpu ∷ hip ∷ []));
  registry_try_create = λ t r name. (ok_status, some 30);
  query_available_devices = λ t d. (ok_status, some device_infos);
  hal_create_device = λ t r uri. (ok_status, some 40);
  hal_module_create = λ t i d. (ok_status, some 50);
  bytecode_module_create = λ t i code. (ok_status, some 51);
  context_create = λ t i h b. (ok_status, some 52);
  resolve_function = λ t c name. (ok_status, 53);
  list_create = λ t n. (ok_status, some 54);
  list_push = λ t l r. ok_status;
  cconv_fragments = λ t f. (ok_status, (codes "r", codes "r"));
  vm_invoke = λ t c f i o. ok_status;
  list_get_view_retain = λ t l i. 61;
  plugin_manager_create = λ t. (ok_status, some 70);
  system_loader_create = λ t p. (ok_status, some 71);
  vmvx_loader_create = λ t. (ok_status, some 72);
  heap_create = λ t name. (ok_status, some 73);
  sync_device_create = λ t name loaders a. (ok_status, some 74);
}

-- Its copies to the host fail.
abbrev pub no_transfers : Api
no_transfers = record library { transfer_d2h = λ t d b n. (3, []) }

-- It does not create the second device.
abbrev pub one_device : Api
one_device = record library {
  hal_create_device =
      λ t r uri. if text_eq uri (codes "local-sync://b") then (3, some 0) else (ok_status, some 40);
}

abbrev pub no_memory : Api
no_memory = record library { can_alloc = λ t n. false }

abbrev pub host_copy : Tensor
host_copy = record {
  data_ptr = 1;
  size = 2;
  dims = 2 ∷ [];
  elem_type = uint_8;
  buffer_view = 0;
  device = none;
}

abbrev pub device_copy : Tensor
device_copy = record {
  data_ptr = 0;
  size = 2;
  dims = 2 ∷ [];
  elem_type = uint_8;
  buffer_view = 90;
  device = some 40;
}

abbrev pub no_copy : Tensor
no_copy = record host_copy { data_ptr = 0 }

abbrev pub two_bytes : List Cell
two_bytes = some 8 ∷ some 9 ∷ []

-- A state with the tensor at 2, and two bytes at 1.
abbrev pub state_with : Tensor → World
state_with t = record start {
  blocks = update start.blocks 1 (some two_bytes);
  tensors = update start.tensors 2 (some t);
  last = 2;
}

pub data Term : Type 0 where
  atom_term string_term : Text → Term
  int_term : ℤ → Term
  binary_term : List Cell → Term
  tuple_term : Term → Term
  nil_term : Term
  cell_term : Term → Term → Term
  resource_term : ResourceType → Ptr → Term

unfoldable pub cells : List Term → Term
cells [] = nil_term
cells (x ∷ xs) = cell_term x (cells xs)

unfoldable pub list_length : Term → Option ℕ
list_length nil_term = some 0
list_length (cell_term x xs) = elim (list_length xs) [ none ↦ none | some n ↦ some (suc n) ]
list_length t = none

unfoldable pub list_cell : Term → Option (Term × Term)
list_cell (cell_term x xs) = some (x, xs)
list_cell t = none

unfoldable pub int_of : Term → Option ℤ
int_of (int_term n) = some n
int_of t = none

unfoldable pub bytes_of : List Cell → List ℕ
bytes_of [] = []
bytes_of (none ∷ cs) = 0 ∷ bytes_of cs
bytes_of (some b ∷ cs) = b ∷ bytes_of cs

unfoldable pub binary_of : Term → Option (List ℕ)
unfolding bytes_of
binary_of (binary_term cs) = some (bytes_of cs)
binary_of t = none

-- The characters of a list of small integers.
unfoldable pub characters : Term → List ℕ
characters (cell_term (int_term (pos n)) xs) = n ∷ characters xs
characters nil_term = 0 ∷ []
characters t = []

unfoldable pub resource_of : ResourceType → Term → Option Ptr
resource_of vm_instance (resource_term vm_instance p) = some p
resource_of hal_device (resource_term hal_device p) = some p
resource_of driver_registry (resource_term driver_registry p) = some p
resource_of tensor (resource_term tensor p) = some p
resource_of t u = none

unfoldable pub opens : ResourceType → Bool
opens tensor = false
opens t = true

-- It does not open the resource type of tensors.
abbrev pub emulator : Env
emulator = record {
  Term = Term;
  get_list_length = list_length;
  get_list_cell = list_cell;
  get_int64 = int_of;
  inspect_binary = binary_of;
  get_string = λ t n. (pos (length (characters t)), take n (characters t));
  get_resource = resource_of;
  make_atom = atom_term;
  make_string = string_term;
  make_int64 = int_term;
  make_uint64 = λ n. int_term (pos n);
  make_tuple = λ ts. tuple_term (cells ts);
  make_list = cells;
  make_binary = binary_term;
  make_resource = resource_term;
  open_resource_type = opens;
}
