-- ===== src/Nif/Program.antt =====
-- `call_nif` and the function table of c_src/nx_iree.cc.
use nx_iree.Base.{Option, none, some, List, [], ◌∷◌, map, Text, codes, text_eq, if◌then◌else◌}
use nx_iree.Base.Int.{to_i64}
use nx_iree.Machine.{Ptr, Status, M, pure, ◌>>=◌, stop_with, runtime_error}
use nx_iree.Machine.Memory.{get_tensor}
use nx_iree.Api.{Api, is_ok}
use nx_iree.Types.{iree_type_to_nx_type}
use nx_iree.Status.{get_status_message}
use nx_iree.Call
use nx_iree.Erlang.{Env, vm_instance, hal_device, tensor}
use nx_iree.Nif.Terms.{argument, make, get, error, ok_term, get_list, get_string}
use nx_iree.Nif.Tensors
use nx_iree.Nif.Devices

module _ (api : Api) (e : Env) where
  open e use {Term}

  -- One result as Elixir gets it: the tensor, its dimensions and its type's name.
  unfoldable pub output_term : Ptr → M Term
  output_term p = do
    t ← get_tensor p
    pure (
        e.make_tuple (
          make e tensor p
          ∷ e.make_list (map (λ d. e.make_int64 (to_i64 d)) t.dims)
          ∷ e.make_string (iree_type_to_nx_type t.elem_type)
          ∷ []))

  unfoldable pub output_terms : List Ptr → M (List Term)
  unfolding output_term
  output_terms [] = pure []
  output_terms (p ∷ results) = do
    term ← output_term p
    terms ← output_terms results
    pure (term ∷ terms)

  -- `result_tensors.value()`, which throws where there is none.
  unfoldable pub answer_results : Option (List Ptr) → M Term
  unfolding output_terms
  answer_results none = stop_with (runtime_error (codes "bad_optional_access"))
  answer_results (some results) = do
    terms ← output_terms results
    pure (ok_term e (e.make_list terms))

  unfoldable pub answer_call : Status × Option (List Ptr) → M Term
  unfolding answer_results
  answer_call (status, result_tensors) =
      if is_ok status
      then answer_results result_tensors
      else (do message ← get_status_message api status; pure (error e message))

  unfoldable pub call_nif : Term → Term → Term → Term → Term → M Term
  unfolding answer_call
  call_nif a0 a1 a2 a3 a4 = argument e (codes "invalid instance") (get e vm_instance a0) λ vm.
      argument e (codes "invalid device") (get e hal_device a1) λ device.
        argument e (codes "invalid device") (get_string e a2) λ driver_name.
          argument e (codes "invalid bytecode") (e.inspect_binary a3) λ bytecode.
            argument e (codes "invalid inputs") (get_list e (get e tensor) a4) λ inputs. (do
              result ← Call.call api vm device driver_name bytecode inputs
              answer_call result)

  -- The functions of arity 0 to 5; `none` is a name that is not exported with the arity.
  unfoldable pub table_0 : Text → Option (M Term)
  table_0 name =
      if text_eq name (codes "create_instance")
      then some (Devices.create_instance api e)
      else if text_eq name (codes "get_driver_registry")
      then some (Devices.get_driver_registry api e)
      else none

  unfoldable pub table_1 : Text → Term → Option (M Term)
  table_1 name a0 =
      if text_eq name (codes "list_devices")
      then some (Devices.list_devices api e a0 none)
      else if text_eq name (codes "list_drivers")
      then some (Devices.list_drivers api e a0)
      else if text_eq name (codes "deallocate_buffer")
      then some (Tensors.deallocate_buffer api e (a0 ∷ []))
      else if text_eq name (codes "serialize_tensor")
      then some (Tensors.serialize_tensor api e (a0 ∷ []))
      else if text_eq name (codes "deserialize_tensor")
      then some (Tensors.deserialize_tensor api e (a0 ∷ []))
      else none

  unfoldable pub table_2 : Text → Term → Term → Option (M Term)
  table_2 name a0 a1 =
      if text_eq name (codes "create_device")
      then some (Devices.create_device api e a0 a1)
      else if text_eq name (codes "list_devices")
      then some (Devices.list_devices api e a0 (some a1))
      else none

  unfoldable pub table_5 : Text → Term → Term → Term → Term → Term → Option (M Term)
  unfolding call_nif
  table_5 name a0 a1 a2 a3 a4 =
      if text_eq name (codes "call_io")
      then some (call_nif a0 a1 a2 a3 a4)
      else if text_eq name (codes "call_cpu")
      then some (call_nif a0 a1 a2 a3 a4)
      else none

  unfoldable pub dispatch : Text → List Term → Option (M Term)
  unfolding table_0 table_1 table_2 table_5
  dispatch name [] = table_0 name
  dispatch name (a0 ∷ []) = table_1 name a0
  dispatch name (a0 ∷ a1 ∷ []) = table_2 name a0 a1
  dispatch name (a0 ∷ a1 ∷ a2 ∷ []) =
      if text_eq name (codes "read_buffer")
      then some (Tensors.read_buffer_nif api e a0 a1 a2)
      else none
  dispatch name (a0 ∷ a1 ∷ a2 ∷ a3 ∷ []) =
      if text_eq name (codes "allocate_buffer")
      then some (Tensors.allocate_buffer api e (a0 ∷ a1 ∷ a2 ∷ a3 ∷ []))
      else none
  dispatch name (a0 ∷ a1 ∷ a2 ∷ a3 ∷ a4 ∷ []) = table_5 name a0 a1 a2 a3 a4
  dispatch name (a0 ∷ a1 ∷ a2 ∷ a3 ∷ a4 ∷ a5 ∷ rest) = none
