-- ===== src/Ownership/Handlers.antt =====
-- Every function that the library c_src/nx_iree.cc exports keeps the invariant.
use nx_iree.Base.{ℕ, Option, none, some, List, [], ◌∷◌, Text}
use nx_iree.Base.Int.{ℤ}
use nx_iree.Machine.{Ptr, Status, Cell, Tensor, World, Driver, M}
use nx_iree.Api.{Api}
use nx_iree.Erlang.{Env}
use nx_iree.Nif.Terms.{argument}
use nx_iree.Nif.Tensors.{
  read_into, read_checked, read_buffer_nif, allocate_checked, allocate_buffer, deallocate_buffer,
  serialized_binary, serialize_tensor, deserialize_tensor,
}
use nx_iree.Nif.Devices
use nx_iree.Nif.Program.{output_term, output_terms, answer_results, answer_call, call_nif}
use nx_iree.Ownership.Heap.{Owned}
use nx_iree.Ownership.Rules.{ends, stops, faults, Kept, Keeps, Shape, Holds, Stable, kept_rules}
use nx_iree.Ownership.Memory.{reading_rules, memory_rules}
use nx_iree.Ownership.Tensors.{
  read_buffer-Kept, tensor_of_data-Kept, serialize-Kept, deserialize-Kept,
}
use nx_iree.Ownership.Release.{deallocate-Kept}
use nx_iree.Ownership.Devices.{
  create_instance-Kept, list_drivers-Kept, list_devices-Kept, list_devices_of-Kept,
  get_status_message-Kept,
}
use nx_iree.Ownership.Runs.{call-Kept}

module _ (api : Api) (e : Env) where
  open e use {Term}

  -- An argument that cannot be read, or is used.
  pub argument-Kept :
      {J : Shape} {A : Type 0} (message : Text) (a : Option A) (f : A → M Term) (w : World)
      → Holds J w
      → ((x : A) → Keeps J (f x w))
      → Keeps J (argument e message a f w)
  unfolding argument
  argument-Kept message none f w h k = ends h
  argument-Kept message (some a) f w h k = k a

  read_into-Kept :
      (device : Ptr) (t : Tensor) (binary n : ℕ) (w : World)
      → Owned w
      → Kept (read_into api e device t binary n w)
  unfolding read_into
  read_into-Kept device t binary n w h =
      search (memory_rules, read_buffer-Kept, get_status_message-Kept) depth 16

  read_checked-Kept :
      (device input : Ptr) (n : ℤ) (w : World)
      → Owned w
      → Kept (read_checked api e device input n w)
  unfolding read_checked
  read_checked-Kept device input n w h = search (memory_rules, read_into-Kept) depth 16

  pub read_buffer_nif-Kept :
      (a0 a1 a2 : Term) (w : World) → Owned w → Kept (read_buffer_nif api e a0 a1 a2 w)
  unfolding read_buffer_nif
  read_buffer_nif-Kept a0 a1 a2 w h = search (kept_rules, argument-Kept, read_checked-Kept) depth 12

  allocate_checked-Kept :
      (binary : List ℕ) (dims : List ℤ) (type : Text) (w : World)
      → Owned w
      → Kept (allocate_checked api e binary dims type w)
  unfolding allocate_checked
  allocate_checked-Kept binary dims type w h = search (kept_rules, tensor_of_data-Kept) depth 16

  pub deserialize_tensor-Kept :
      (args : List Term) (w : World) → Owned w → Kept (deserialize_tensor api e args w)
  unfolding deserialize_tensor
  deserialize_tensor-Kept [] w h = ends h
  deserialize_tensor-Kept (a0 ∷ []) w h =
      search (kept_rules, argument-Kept, deserialize-Kept) depth 16
  deserialize_tensor-Kept (a0 ∷ a1 ∷ args) w h = ends h

  pub allocate_buffer-Kept :
      (args : List Term) (w : World) → Owned w → Kept (allocate_buffer api e args w)
  unfolding allocate_buffer
  allocate_buffer-Kept [] w h = ends h
  allocate_buffer-Kept (a0 ∷ []) w h = ends h
  allocate_buffer-Kept (a0 ∷ a1 ∷ []) w h = ends h
  allocate_buffer-Kept (a0 ∷ a1 ∷ a2 ∷ []) w h = ends h
  allocate_buffer-Kept (a0 ∷ a1 ∷ a2 ∷ a3 ∷ []) w h =
      search (kept_rules, argument-Kept, allocate_checked-Kept) depth 12
  allocate_buffer-Kept (a0 ∷ a1 ∷ a2 ∷ a3 ∷ a4 ∷ args) w h = ends h

  pub deallocate_buffer-Kept :
      (args : List Term) (w : World) → Owned w → Kept (deallocate_buffer api e args w)
  unfolding deallocate_buffer
  deallocate_buffer-Kept [] w h = ends h
  deallocate_buffer-Kept (a0 ∷ []) w h =
      search (kept_rules, argument-Kept, deallocate-Kept) depth 16
  deallocate_buffer-Kept (a0 ∷ a1 ∷ args) w h = ends h

  serialized_binary-Kept :
      (s : Option (List Cell)) (w : World) → Owned w → Kept (serialized_binary api e s w)
  unfolding serialized_binary
  serialized_binary-Kept none w h = (faults tt)
  serialized_binary-Kept (some s) w h = search memory_rules depth 16

  pub serialize_tensor-Kept :
      (args : List Term) (w : World) → Owned w → Kept (serialize_tensor api e args w)
  unfolding serialize_tensor
  serialize_tensor-Kept [] w h = ends h
  serialize_tensor-Kept (a0 ∷ []) w h =
      search (kept_rules, argument-Kept, serialize-Kept, serialized_binary-Kept) depth 16
  serialize_tensor-Kept (a0 ∷ a1 ∷ args) w h = ends h

  pub create_instance_nif-Kept :
      {J : Shape} (w : World) → Holds J w → Keeps J (Devices.create_instance api e w)
  unfolding Devices.create_instance
  create_instance_nif-Kept w h = search (kept_rules, create_instance-Kept)

  device_term-Kept :
      {J : Shape} (p : Ptr) (w : World) → Holds J w → Keeps J (Devices.device_term api e p w)
  unfolding Devices.device_term
  device_term-Kept p w h = search reading_rules depth 12

  device_terms-Kept :
      {J : Shape} (devices : List Ptr) (w : World)
      → Holds J w
      → Keeps J (Devices.device_terms api e devices w)
  unfolding Devices.device_terms
  device_terms-Kept [] w h = ends h
  device_terms-Kept {J} (p ∷ devices) w h =
      search (kept_rules, device_term-Kept, device_terms-Kept {J = J} devices) depth 12

  answer_devices-Kept :
      {J : Shape} (a : Status × List Ptr) (w : World)
      → Holds J w
      → Keeps J (Devices.answer_devices api e a w)
  unfolding Devices.answer_devices
  answer_devices-Kept a w h =
      search (kept_rules, device_terms-Kept, get_status_message-Kept) depth 12

  pub list_devices_nif-Kept :
      {J : Shape}
      → Stable J
      → (a0 : Term) (a1 : Option Term) (w : World) → Holds J w
      → Keeps J (Devices.list_devices api e a0 a1 w)
  unfolding Devices.list_devices
  list_devices_nif-Kept s a0 none w h =
      search (kept_rules, argument-Kept, list_devices-Kept, answer_devices-Kept) depth 12
  list_devices_nif-Kept s a0 (some a1) w h =
      search (kept_rules, argument-Kept, list_devices_of-Kept, answer_devices-Kept) depth 12

  answer_drivers-Kept :
      {J : Shape} (a : Status × List Driver) (w : World)
      → Holds J w
      → Keeps J (Devices.answer_drivers api e a w)
  unfolding Devices.answer_drivers
  answer_drivers-Kept a w h = search (kept_rules, get_status_message-Kept) depth 12

  pub list_drivers_nif-Kept :
      {J : Shape} (a0 : Term) (w : World) → Holds J w → Keeps J (Devices.list_drivers api e a0 w)
  unfolding Devices.list_drivers
  list_drivers_nif-Kept a0 w h =
      search (kept_rules, argument-Kept, list_drivers-Kept, answer_drivers-Kept) depth 12

  pub create_device_nif-Kept :
      {J : Shape} (a0 a1 : Term) (w : World)
      → Holds J w
      → Keeps J (Devices.create_device api e a0 a1 w)
  unfolding Devices.create_device
  create_device_nif-Kept a0 a1 w h = search (kept_rules, argument-Kept) depth 12

  output_term-Kept : {J : Shape} (p : Ptr) (w : World) → Holds J w → Keeps J (output_term api e p w)
  unfolding output_term
  output_term-Kept p w h = search reading_rules depth 12

  output_terms-Kept :
      {J : Shape} (results : List Ptr) (w : World)
      → Holds J w
      → Keeps J (output_terms api e results w)
  unfolding output_terms
  output_terms-Kept [] w h = ends h
  output_terms-Kept {J} (p ∷ results) w h =
      search (kept_rules, output_term-Kept, output_terms-Kept {J = J} results) depth 12

  answer_results-Kept :
      {J : Shape} (results : Option (List Ptr)) (w : World)
      → Holds J w
      → Keeps J (answer_results api e results w)
  unfolding answer_results
  answer_results-Kept none w h = stops h
  answer_results-Kept (some results) w h = search (kept_rules, output_terms-Kept) depth 12

  pub answer_call-Kept :
      {J : Shape} (a : Status × Option (List Ptr)) (w : World)
      → Holds J w
      → Keeps J (answer_call api e a w)
  unfolding answer_call
  answer_call-Kept a w h =
      search (kept_rules, answer_results-Kept, get_status_message-Kept) depth 12

  pub call_nif-Kept :
      (a0 a1 a2 a3 a4 : Term) (w : World) → Owned w → Kept (call_nif api e a0 a1 a2 a3 a4 w)
  unfolding call_nif
  call_nif-Kept a0 a1 a2 a3 a4 w h =
      search (kept_rules, argument-Kept, call-Kept, answer_call-Kept) depth 12
