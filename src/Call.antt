-- ===== src/Call.antt =====
-- `call` of cmake/src/runtime.cc: one run of `module.main` of a compiled program.
pub mod Outputs
pub mod Outcome
pub mod Balance
pub mod Moves
pub mod Obliging
pub mod Success
pub mod Remote
use nx_iree.Base.{
  ℕ, zero, suc, Option, none, some, List, [], ◌∷◌, map, Text, codes, text_eq, length, ◌==◌,
  if◌then◌else◌,
}
use mathlib.Core.Option.{get_or}
use nx_iree.Machine.{
  Ptr, null, Status, ok_status, Cell, Kind, Trace, module_kind, context_kind, list_kind, view_kind,
  acquire, release, move_ref, call_to, World, M, pure, ◌>>=◌, ◌>>◌, stop_with, returned, on_return,
  log, ask,
}
use nx_iree.Machine.Memory.{load, get_tensor, set_tensor}
use nx_iree.Api.{Api, Created, is_ok, create, perform}
use nx_iree.Tensor.{run_if_cuda_enabled, copy_dims, tensor_of_view}

-- `RETURN_PAIR_IF_ERROR`, which names its argument twice: a call that fails is made again, and
-- the status of that second call is the one that is returned.
unfoldable pub return_if_error : {A : Type 0} → M (Status × A) → M A
return_if_error m = do
  (status, a) ← m
  if is_ok status then pure a else (do (again, _) ← m; stop_with (returned again))

-- A creating call under `RETURN_PAIR_IF_ERROR`; the out-parameter is null before it.
unfoldable pub create_or_return : Kind → Text → List ℕ → List Cell → (Trace → Created) → M Ptr
unfolding return_if_error create
create_or_return k name args bytes q = do
  out ← return_if_error (create k name args bytes q)
  pure (get_or out null)

-- Another call under `RETURN_PAIR_IF_ERROR`.
unfoldable pub perform_or_return : Text → List ℕ → (Trace → Status) → M (Unit {0})
unfolding return_if_error perform
perform_or_return name args q =
    return_if_error (do status ← perform name args [] q; pure (status, tt))

unfoldable pub release_run : Ptr → Ptr → Ptr → M (Unit {0})
release_run context inputs outputs = do
  log (release list_kind inputs)
  log (release list_kind outputs)
  if context == null then pure tt else log (release context_kind context)

module _ (api : Api) where
  -- The modules, the context with them, and `module.main`.
  unfoldable pub load_program : Ptr → Ptr → Text → List ℕ → M (Ptr × Ptr)
  unfolding create_or_return perform_or_return
  load_program instance_ptr device driver_name bytecode = do
    run_if_cuda_enabled api (text_eq driver_name (codes "cuda")) (some device)
    hal_module ←
        create_or_return module_kind (codes "iree_hal_module_create") (instance_ptr ∷ device ∷ [])
          [] λ t. api.hal_module_create t instance_ptr device
    bytecode_module ←
        create_or_return module_kind (codes "iree_vm_bytecode_module_create") (instance_ptr ∷ [])
          (map some bytecode) λ t. api.bytecode_module_create t instance_ptr bytecode
    context ←
        create_or_return context_kind (codes "iree_vm_context_create_with_modules")
          (instance_ptr ∷ hal_module ∷ bytecode_module ∷ []) []
          λ t. api.context_create t instance_ptr hal_module bytecode_module
    main_function ← ask (λ t. (api.resolve_function t context (codes "module.main")).1)
    perform_or_return (codes "iree_vm_context_resolve_function") (context ∷ [])
        λ t. (api.resolve_function t context (codes "module.main")).0
    pure (context, main_function)

  -- The reference that is pushed for an input.
  unfoldable pub input_ref : Ptr → Ptr → M Ptr
  unfolding create_or_return
  input_ref device input = do
    t ← get_tensor input
    if t.buffer_view == null
        then (do
          bytes ← load t.data_ptr t.size
          view ←
              create_or_return view_kind (codes "iree_hal_buffer_view_allocate_buffer_copy")
                (device ∷ t.elem_type ∷ t.dims) bytes
                λ s. api.allocate_buffer_copy s device t.dims t.elem_type bytes
          log (move_ref view_kind view)
          pure view)
        else (log (move_ref view_kind t.buffer_view) >> pure t.buffer_view)

  -- `iree_vm_list_push_ref_move`.
  unfoldable pub push_ref : Ptr → Ptr → M (Unit {0})
  unfolding perform_or_return
  push_ref inputs ref =
      perform_or_return (codes "iree_vm_list_push_ref_move") (inputs ∷ ref ∷ [])
        λ t. api.list_push t inputs ref

  -- The loop over the inputs left.
  unfoldable pub push_inputs : Ptr → Ptr → List Ptr → M (Unit {0})
  unfolding input_ref push_ref
  push_inputs device inputs [] = pure tt
  push_inputs device inputs (input ∷ rest) = do
    ref ← input_ref device input
    push_ref inputs ref
    push_inputs device inputs rest

  -- `iree_vm_list_get_buffer_view_retain`.
  unfoldable pub get_view_retain : Ptr → ℕ → M Ptr
  get_view_retain outputs i = do
    view ← ask (λ t. api.list_get_view_retain t outputs i)
    log (call_to (codes "iree_vm_list_get_buffer_view_retain") (outputs ∷ i ∷ []) [])
    log (acquire view_kind view)
    pure view

  -- The tensor of output `i`; its dimensions are copied again.
  unfoldable pub output_tensor : Ptr → Ptr → ℕ → M Ptr
  unfolding get_view_retain
  output_tensor device outputs i = do
    view ← get_view_retain outputs i
    if view == null then stop_with (returned (api.not_found i)) else do
      out_shape_rank ← ask (λ t. api.view_shape_rank t view)
      out_shape ← ask (λ t. api.view_shape_dims t view)
      out_type ← ask (λ t. api.view_element_type t view)
      tensor ← tensor_of_view api view out_type device
      dims ← copy_dims out_shape_rank out_shape
      t ← get_tensor tensor
      set_tensor tensor (record t { dims = dims })
      pure tensor

  -- The loop over the outputs, from `i` on, with the number of them left.
  unfoldable pub collect_outputs : Ptr → Ptr → ℕ → ℕ → M (List Ptr)
  unfolding output_tensor
  collect_outputs device outputs i zero = pure []
  collect_outputs device outputs i (suc left) = do
    tensor ← output_tensor device outputs i
    results ← collect_outputs device outputs (suc i) left
    pure (tensor ∷ results)

  unfoldable pub new_list : ℕ → M Ptr
  unfolding create_or_return
  new_list n =
      create_or_return list_kind (codes "iree_vm_list_create") (n ∷ []) [] λ t. api.list_create t n

  -- The list of inputs, filled.
  unfoldable pub make_inputs : Ptr → List Ptr → M Ptr
  unfolding push_inputs new_list
  make_inputs device exla_inputs = do
    inputs ← new_list (length exla_inputs)
    push_inputs device inputs exla_inputs
    pure inputs

  -- The run: the list of outputs, and how many the signature announces.
  unfoldable pub invoke : Ptr → Ptr → Ptr → M (Ptr × ℕ)
  unfolding new_list perform_or_return
  invoke context main_function inputs = do
    signatures ← ask (λ t. (api.cconv_fragments t main_function).1)
    perform_or_return (codes "iree_vm_function_call_get_cconv_fragments") (main_function ∷ [])
        λ t. (api.cconv_fragments t main_function).0
    let output_count = length signatures.1
    outputs ← new_list output_count
    perform_or_return (codes "iree_vm_invoke") (context ∷ main_function ∷ inputs ∷ outputs ∷ [])
        λ t. api.vm_invoke t context main_function inputs outputs
    pure (outputs, output_count)

  unfoldable pub run_program : Ptr → Ptr → Ptr → List Ptr → M (Status × Option (List Ptr))
  unfolding make_inputs invoke collect_outputs release_run
  run_program device context main_function exla_inputs = do
    inputs ← make_inputs device exla_inputs
    (outputs, output_count) ← invoke context main_function inputs
    results ← collect_outputs device outputs 0 output_count
    release_run context inputs outputs
    pure (ok_status, some results)

  -- An early return gives the status and no results.
  unfoldable pub call : Ptr → Ptr → Text → List ℕ → List Ptr → M (Status × Option (List Ptr))
  unfolding load_program run_program
  call instance_ptr device driver_name bytecode exla_inputs w =
      on_return (λ status. (status, none))
        ((do
          (context, main_function) ← load_program instance_ptr device driver_name bytecode
          run_program device context main_function exla_inputs)
          w)
