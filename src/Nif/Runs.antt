-- ===== src/Nif/Runs.antt =====
-- `call_nif` from its arguments to its answer, on a library that does not fail.
use nx_iree.Base.{Option, ℕ, suc, ◌≡◌, refl, some, List, [], ◌∷◌, Text, length, ap, arith}
use nx_iree.Machine.{Ptr, World, ok_status, Status}
use nx_iree.Machine.Post.{Safe, Returns, returns, Returns-bind, to_Safe}
use nx_iree.Machine.Memory.{get_tensor}
use nx_iree.Api.{Api}
use nx_iree.Call.Obliging.{Obliging, AllInputs}
use nx_iree.Call.Success.{AllDefined, call-Succeeds}
use nx_iree.Erlang.{Env, vm_instance, hal_device, tensor}
use nx_iree.Nif.Terms.{argument, ok_term, get_list, get_string}
use nx_iree.Nif.Program.{output_term, output_terms, answer_results, answer_call, call_nif}

-- The arguments of `call_io` and `call_cpu` that can be read.
pub record CallArguments (e : Env) (a0 a1 a2 a3 a4 : e.Term) (vm device : Ptr) (name : Text)
    (bytecode : List ℕ) (inputs : List Ptr) : Type 0 where
  pub vm_read : e.get_resource vm_instance a0 ≡ some vm
  pub device_read : e.get_resource hal_device a1 ≡ some device
  pub name_read : get_string e a2 ≡ some name
  pub bytecode_read : e.inspect_binary a3 ≡ some bytecode
  pub inputs_read : get_list e (e.get_resource tensor) a4 ≡ some inputs

module _ (api : Api) (e : Env) where
  open e use {Term}

  output_terms-Returns :
      (rs : List Ptr) (w : World)
      → AllDefined w.tensors rs
      → Returns (λ ts v. length ts ≡ length rs) (output_terms api e rs w)
  unfolding output_terms output_term get_tensor
  output_terms-Returns [] w h = returns refl
  output_terms-Returns (p ∷ rs) w ((t, here), h) =
      rw here (Returns-bind (output_terms-Returns rs w h) λ ts v len. returns (ap suc len))

  -- A list of `n` terms, under `ok`.
  abbrev pub Lists : ℕ → Term → Type 0
  Lists n r = (ts : List Term) × (r ≡ ok_term e (e.make_list ts)) × (length ts ≡ n)

  answer_call-Returns :
      (n : ℕ) (r : Status × Option (List Ptr)) (w : World)
      → (r.0 ≡ ok_status)
        × ((rs : List Ptr) × (r.1 ≡ some rs) × (length rs ≡ n) × AllDefined w.tensors rs)
      → Returns (λ a v. Lists n a) (answer_call api e r w)
  unfolding answer_call answer_results
  answer_call-Returns n r w (fine, (rs, e', len, all)) =
      rw (fine, e')
        (Returns-bind (output_terms-Returns rs w all)
          λ ts v k. returns (ts, refl, omega (arith, k, len)))

  pub call_nif-Lists :
      (n : ℕ) (a0 a1 a2 a3 a4 : Term) (vm device : Ptr) (name : Text) (bytecode : List ℕ)
      (inputs : List Ptr) (w : World)
      → Obliging api n
      → CallArguments e a0 a1 a2 a3 a4 vm device name bytecode inputs
      → AllInputs w.tensors w.blocks inputs
      → Safe (λ r v. Lists n r) (λ x v. ⊥) (call_nif api e a0 a1 a2 a3 a4 w)
  unfolding call_nif argument
  call_nif-Lists n a0 a1 a2 a3 a4 vm device name bytecode inputs w o a h =
      rw (a.vm_read, a.device_read, a.name_read, a.bytecode_read, a.inputs_read)
        (to_Safe (
          Returns-bind (call-Succeeds api n o vm device name bytecode inputs w h)
            λ r v s. answer_call-Returns n r v s))
