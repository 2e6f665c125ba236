-- ===== src/Nif/Retried.antt =====
-- A library call in `call` (cmake/src/runtime.cc) that fails, and succeeds when `RETURN_PAIR_IF_ERROR`
-- makes it again: what `call_io` and `call_cpu` of c_src/nx_iree.cc make of it.
use nx_iree.Base.{◌≡◌, ◌≢◌, none, List, [], ◌∷◌, Text, codes, ℕ, false, arith}
use mathlib.Core.Option.{get_or}
use nx_iree.Machine.{
  Ptr, null, ok_status, Event, World, acquire, call_to, module_kind, ok, stop, runtime_error,
}
use nx_iree.Api.{Api}
use nx_iree.Erlang.{Env}
use nx_iree.Tensor.{run_if_cuda_enabled}
use nx_iree.Call.{call, load_program, create_or_return}
use nx_iree.Nif.Terms.{argument}
use nx_iree.Nif.Program.{call_nif, answer_call, answer_results}
use nx_iree.Nif.Runs.{CallArguments}

module _ (api : Api) (vm device : Ptr) (w : World) where
  abbrev pub tried : Event
  tried = call_to (codes "iree_hal_module_create") (vm ∷ device ∷ []) []

  -- The state after the second call, which handed out a module.
  abbrev pub twice_tried : World
  twice_tried = record w {
    trace =
        acquire module_kind (get_or (api.hal_module_create (tried ∷ w.trace) vm device).1 null)
        ∷ tried
        ∷ tried
        ∷ w.trace;
  }

  call-retried :
      (name : Text) (bytecode : List ℕ) (inputs : List Ptr)
      → api.cuda_enabled ≡ false
      → (api.hal_module_create w.trace vm device).0 ≢ ok_status
      → (api.hal_module_create (tried ∷ w.trace) vm device).0 ≡ ok_status
      → call api vm device name bytecode inputs w ≡ ok (ok_status, none) twice_tried
  unfolding call load_program create_or_return run_if_cuda_enabled
  call-retried name bytecode inputs host bad fine = ground (arith, host, bad, fine)

-- Without CUDA, when the library fails to create the HAL module, and creates it when it is
-- asked again, `call` returns OK without results, and holds a reference to the module of the
-- second call, which it does not release; and `call_io` and `call_cpu`, with arguments that can
-- be read, end in the exception of an empty optional.
pub call_nif-retried :
    (api : Api) (e : Env) (a0 a1 a2 a3 a4 : e.Term) (vm device : Ptr) (name : Text)
    (bytecode : List ℕ) (inputs : List Ptr) (w : World)
    → api.cuda_enabled ≡ false
    → CallArguments e a0 a1 a2 a3 a4 vm device name bytecode inputs
    → (api.hal_module_create w.trace vm device).0 ≢ ok_status
    → (api.hal_module_create (tried api vm device w ∷ w.trace) vm device).0 ≡ ok_status
    → (call api vm device name bytecode inputs w
        ≡ ok (ok_status, none) (twice_tried api vm device w))
      × (call_nif api e a0 a1 a2 a3 a4 w
          ≡ stop (runtime_error (codes "bad_optional_access")) (twice_tried api vm device w))
unfolding call_nif argument answer_call answer_results
call_nif-retried api e a0 a1 a2 a3 a4 vm device name bytecode inputs w host a bad fine =
    let run = call-retried api vm device w name bytecode inputs host bad fine in
    (
      run,
      rw (a.vm_read, a.device_read, a.name_read, a.bytecode_read, a.inputs_read, run)
          (ground arith),
    )
