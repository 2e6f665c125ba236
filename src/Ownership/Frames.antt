-- ===== src/Ownership/Frames.antt =====
-- The exported functions of c_src/nx_iree.cc but `deallocate_buffer`, for the tensors that were there.
use nx_iree.Base.{
  ℕ, ◌≡◌, Option, none, some, List, [], ◌∷◌, Text, Bool, true, false, codes, text_eq, subst, length,
  if◌then◌else◌,
}
use nx_iree.Base.Int.{ℤ, to_u64}
use nx_iree.Machine.{Ptr, Cell, Tensor, World, M}
use nx_iree.Api.{Api}
use nx_iree.Erlang.{Env}
use nx_iree.Nif.Tensors.{
  requested, read_into, read_checked, read_buffer_nif, allocate_checked, allocate_buffer,
  serialized_binary, serialize_tensor, deserialize_tensor,
}
use nx_iree.Nif.Program.{call_nif, dispatch, table_0, table_1, table_2, table_5}
use nx_iree.Ownership.Rules.{faults, Run-bind, Keeps, Kept-bind, kept_rules}
use nx_iree.Ownership.Memory.{reading_rules, get_tensor-Kept}
use nx_iree.Ownership.Devices.{get_status_message-Kept}
use nx_iree.Ownership.Handlers.{
  argument-Kept, answer_call-Kept, create_instance_nif-Kept, list_devices_nif-Kept,
  list_drivers_nif-Kept, create_device_nif-Kept,
}
use nx_iree.Ownership.Histories.{
  AllKept, kept, missing, AllKept-if, AllKept-some, get_driver_registry_nif-Kept,
}
use nx_iree.Ownership.Growth.{IsGrown, Grown, Apart, IsGrown-Stable, malloc-Grown, store-Grown}
use nx_iree.Ownership.Growing.{
  read_buffer-Grown, tensor_of_data-Grown, deserialize-Grown, serialize-Grown,
}
use nx_iree.Ownership.Made.{call-Grown}

module _ (api : Api) (e : Env) {old : World} where
  open e use {Term}

  read_into-Grown :
      (device : Ptr) (t : Tensor) (binary n : ℕ) (w : World)
      → Apart old binary
      → Grown old w
      → Keeps (IsGrown old) (read_into api e device t binary n w)
  unfolding read_into
  read_into-Grown device t binary n w apart g =
      search (reading_rules, store-Grown, read_buffer-Grown, get_status_message-Kept) depth 16

  read_checked-Grown :
      (device input : Ptr) (n : ℤ) (w : World)
      → Grown old w
      → Keeps (IsGrown old) (read_checked api e device input n w)
  unfolding read_checked
  read_checked-Grown device input n w g = Kept-bind (get_tensor-Kept input w g) λ t v k.
      Run-bind (malloc-Grown api.can_alloc (to_u64 (requested api e n t)) v k)
        λ p u (k, apart, same). search (kept_rules, read_into-Grown) depth 12

  read_buffer_nif-Grown :
      (a0 a1 a2 : Term) (w : World)
      → Grown old w
      → Keeps (IsGrown old) (read_buffer_nif api e a0 a1 a2 w)
  unfolding read_buffer_nif
  read_buffer_nif-Grown a0 a1 a2 w g =
      search (kept_rules, argument-Kept, read_checked-Grown) depth 12

  allocate_checked-Grown :
      (binary : List ℕ) (dims : List ℤ) (type : Text) (w : World)
      → Grown old w
      → Keeps (IsGrown old) (allocate_checked api e binary dims type w)
  unfolding allocate_checked
  allocate_checked-Grown binary dims type w g = search (kept_rules, tensor_of_data-Grown) depth 16

  deserialize_tensor-Grown :
      (a0 : Term) (w : World)
      → Grown old w
      → Keeps (IsGrown old) (deserialize_tensor api e (a0 ∷ []) w)
  unfolding deserialize_tensor
  deserialize_tensor-Grown a0 w g = search (kept_rules, argument-Kept, deserialize-Grown) depth 16

  allocate_buffer-Grown :
      (a0 a1 a2 a3 : Term) (w : World)
      → Grown old w
      → Keeps (IsGrown old) (allocate_buffer api e (a0 ∷ a1 ∷ a2 ∷ a3 ∷ []) w)
  unfolding allocate_buffer
  allocate_buffer-Grown a0 a1 a2 a3 w g =
      search (kept_rules, argument-Kept, allocate_checked-Grown) depth 12

  serialized_binary-Grown :
      (s : Option (List Cell)) (w : World)
      → Grown old w
      → Keeps (IsGrown old) (serialized_binary api e s w)
  unfolding serialized_binary
  serialized_binary-Grown none w g = (faults tt)
  serialized_binary-Grown (some s) w g =
      Run-bind (malloc-Grown api.can_alloc (length s) w g)
        λ p v (k, apart, same). search (reading_rules, store-Grown) depth 14

  serialize_tensor-Grown :
      (a0 : Term) (w : World)
      → Grown old w
      → Keeps (IsGrown old) (serialize_tensor api e (a0 ∷ []) w)
  unfolding serialize_tensor
  serialize_tensor-Grown a0 w g =
      search (kept_rules, argument-Kept, serialize-Grown, serialized_binary-Grown) depth 16

  call_nif-Grown :
      (a0 a1 a2 a3 a4 : Term) (w : World)
      → Grown old w
      → Keeps (IsGrown old) (call_nif api e a0 a1 a2 a3 a4 w)
  unfolding call_nif
  call_nif-Grown a0 a1 a2 a3 a4 w g =
      search (kept_rules, argument-Kept, call-Grown, answer_call-Kept) depth 12

  -- A function that is not the one that is found.
  AllKept-unless :
      {A : Type 0} {w : World} (b : Bool) (m : M A) (rest : Option (M A))
      → b ≡ false
      → AllKept (IsGrown old) w rest
      → AllKept (IsGrown old) w (if b then some m else rest)
  AllKept-unless true m rest no_b r = absurd (cc)
  AllKept-unless false m rest no_b r = r

  dispatch-AllGrown :
      (name : Text) (args : List Term) (w : World)
      → text_eq name (codes "deallocate_buffer") ≡ false
      → Grown old w
      → AllKept (IsGrown old) w (dispatch api e name args)
  unfolding dispatch table_0 table_1 table_2 table_5
  dispatch-AllGrown name [] w other g =
      search (AllKept-if, kept, missing, create_instance_nif-Kept, get_driver_registry_nif-Kept)
        depth 12
  dispatch-AllGrown name (a0 ∷ []) w other g =
      search
        (
          AllKept-unless, AllKept-if, missing, IsGrown-Stable, list_devices_nif-Kept,
          list_drivers_nif-Kept, serialize_tensor-Grown, deserialize_tensor-Grown,
        )
        depth 14
  dispatch-AllGrown name (a0 ∷ a1 ∷ []) w other g =
      search (AllKept-if, missing, IsGrown-Stable, create_device_nif-Kept, list_devices_nif-Kept)
  dispatch-AllGrown name (a0 ∷ a1 ∷ a2 ∷ []) w other g =
      search (AllKept-if, missing, read_buffer_nif-Grown)
  dispatch-AllGrown name (a0 ∷ a1 ∷ a2 ∷ a3 ∷ []) w other g =
      search (AllKept-if, missing, allocate_buffer-Grown)
  dispatch-AllGrown name (a0 ∷ a1 ∷ a2 ∷ a3 ∷ a4 ∷ []) w other g =
      search (AllKept-if, missing, call_nif-Grown)
  dispatch-AllGrown name (a0 ∷ a1 ∷ a2 ∷ a3 ∷ a4 ∷ a5 ∷ args) w other g = missing

  pub dispatch-Grown :
      {m : M Term} (name : Text) (args : List Term) (w : World)
      → text_eq name (codes "deallocate_buffer") ≡ false
      → Grown old w
      → dispatch api e name args ≡ some m
      → Keeps (IsGrown old) (m w)
  dispatch-Grown name args w other g found =
      AllKept-some
        (subst (λ o. AllKept (IsGrown old) w o) found (dispatch-AllGrown name args w other g))
