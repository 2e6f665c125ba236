-- ===== src/Machine.antt =====
-- The state on which the runtime's C++ code runs (cmake/src/runtime.h for the classes): host
-- memory, the objects on the heap, and the calls made to the IREE library so far.
pub mod Memory
pub mod Post
pub mod Ledger
pub mod Laws
use nx_iree.Base.{ℕ, suc, ◌≡◌, Option, none, some, List, [], ◌∷◌, Text, ◌==◌, if◌then◌else◌, Bool}

-- A pointer, an IREE handle or a status: zero is `nullptr`, or the status OK.
abbrev pub Ptr : Type 0
Ptr = ℕ

abbrev pub null : Ptr
null = 0

abbrev pub Status : Type 0
Status = ℕ

abbrev pub ok_status : Status
ok_status = 0

-- A byte of memory; `none` is an indeterminate value, as `malloc` leaves it.
abbrev pub Cell : Type 0
Cell = Option ℕ

-- `iree::runtime::Driver`.
pub record Driver : Type 0 where
  pub name : Text
  pub full_name : Text

-- `iree::runtime::Device`; the constructors leave `ref` or `id` indeterminate.
pub record Device : Type 0 where
  pub uri : Text
  pub ref : Option Ptr
  pub driver_name : Text
  pub id : Option ℕ

-- `iree::runtime::IREETensor`; two of its constructors leave `device` indeterminate.
pub record Tensor : Type 0 where
  pub data_ptr : Ptr
  pub size : ℕ
  pub dims : List ℕ
  pub elem_type : ℕ
  pub buffer_view : Ptr
  pub device : Option Ptr

-- `nx_iree_data_buffer_t`, a data buffer of the browser.
pub record DataBuffer : Type 0 where
  pub data_ptr : Ptr
  pub size : ℕ

-- The kinds of IREE objects that are counted by references.
pub data Kind : Type 0 where
  instance_kind module_kind context_kind list_kind view_kind driver_kind device_kind : Kind
  allocator_kind loader_kind plugin_manager_kind registry_kind : Kind

-- What the code does to the IREE library. `acquire k p` is a call that hands a reference of its
-- own to the caller, `release k p` one that drops it, `move_ref k p` one that gives it away.
pub data Event : Type 0 where
  acquire release move_ref : Kind → Ptr → Event
  call_to : Text → List ℕ → List Cell → Event
  status_free : Status → Event
  host_alloc : ℕ → Event

abbrev pub Trace : Type 0
Trace = List Event

pub record World : Type 0 where
  pub blocks : Ptr → Option (List Cell)
  pub tensors : Ptr → Option Tensor
  pub devices : Ptr → Option Device
  pub buffers : Ptr → Option DataBuffer
  pub last : Ptr
  pub trace : Trace

-- Undefined behaviour of the C++ code.
pub data Fault : Type 0 where
  null_deref out_of_bounds use_after_free double_free uninitialised : Fault

-- How control leaves a function other than by its end.
pub data Exit : Type 0 where
  returned : Status → Exit
  bad_alloc : Exit
  runtime_error : Text → Exit

pub data Res (A : Type 0) : Type 0 where
  ok : A → World → Res A
  stop : Exit → World → Res A
  fault : Fault → Res A

abbrev pub M : Type 0 → Type 0
M A = World → Res A

abbrev pub pure : {A : Type 0} → A → M A
pure a w = ok a w

abbrev pub and_then : {A B : Type 0} → Res A → (A → M B) → Res B
and_then (ok a w) f = f a w
and_then (stop e w) f = stop e w
and_then (fault x) f = fault x

infixl 5 ◌>>=◌ ◌>>◌
abbrev pub ◌>>=◌ : {A B : Type 0} → M A → (A → M B) → M B
◌>>=◌ m f w = and_then (m w) f

abbrev pub ◌>>◌ : {B : Type 0} → M (Unit {0}) → M B → M B
◌>>◌ m k w = and_then (m w) (λ _. k)

abbrev pub fail : {A : Type 0} → Fault → M A
fail x w = fault x

abbrev pub stop_with : {A : Type 0} → Exit → M A
stop_with e w = stop e w

-- What a caller sees of an early `return` of a status.
abbrev pub on_return : {A : Type 0} → (Status → A) → Res A → Res A
on_return f (ok a w) = ok a w
on_return f (stop (returned s) w) = ok (f s) w
on_return f (stop bad_alloc w) = stop bad_alloc w
on_return f (stop (runtime_error m) w) = stop (runtime_error m) w
on_return f (fault x) = fault x

abbrev pub log : Event → M (Unit {0})
log e w = ok tt (record w { trace = e ∷ w.trace })

-- A pure query of the library, whose answer may depend on all that was done to it.
abbrev pub ask : {A : Type 0} → (Trace → A) → M A
ask q w = ok (q w.trace) w

abbrev pub update : {A : Type 0} → (Ptr → Option A) → Ptr → Option A → Ptr → Option A
update f p v q = if p == q then v else f q

abbrev pub start : World
start = record {
  blocks = λ _. none;
  tensors = λ _. none;
  devices = λ _. none;
  buffers = λ _. none;
  last = 0;
  trace = [];
}
