-- ===== src/Ownership/Runs.antt =====
-- A run of a program keeps the invariant: the new tensors have no host copies, and the inputs are
-- only read.
use nx_iree.Base.{◌==◌, Bool-cases, ℕ, suc, zero, refl, inl, inr, List, [], ◌∷◌, Text, Option-cases}
use nx_iree.Machine.{Ptr, Status, ok_status, M, Cell, Kind, Trace, World, pure, ◌>>=◌, ◌>>◌}
use nx_iree.Machine.Memory.{get_tensor, set_tensor}
use nx_iree.Api.{Api, Created, create, perform}
use nx_iree.Call.{
  return_if_error, create_or_return, perform_or_return, release_run, load_program, input_ref,
  push_ref, push_inputs, get_view_retain, output_tensor, collect_outputs, new_list, make_inputs,
  invoke, run_program, call,
}
use nx_iree.Ownership.Heap.{Owned}
use nx_iree.Ownership.Changes.{put_tensor, update-Fits, tensor-le-last}
use nx_iree.Ownership.Rules.{
  ends, stops, Kept-bind, faults, Kept, Keeps, Shape, Holds, Kept-on_return, kept_rules,
}
use nx_iree.Ownership.Memory.{reading_rules}
use nx_iree.Ownership.Tensors.{run_if_cuda_enabled-Kept, copy_dims-Kept, tensor_of_view-Kept}
use nx_iree.Ownership.Devices.{create-Kept}

return_if_error-Kept :
    {J : Shape} {A : Type 0} (m : M (Status × A)) (w : World)
    → ((v : World) → Holds J v → Keeps J (m v))
    → Holds J w
    → Keeps J (return_if_error m w)
unfolding return_if_error
return_if_error-Kept m w keeps h = Kept-bind (keeps w h) λ r v k.
    elim (Bool-cases (r.0 == ok_status)) [
      | inl e ↦ rw e (ends k)
      | inr e ↦ rw e (Kept-bind (keeps v k) λ again u j. stops j)
    ]

create_or_return-Kept :
    {J : Shape} (k : Kind) (name : Text) (args : List ℕ) (bytes : List Cell) (q : Trace → Created)
    (w : World)
    → Holds J w
    → Keeps J (create_or_return k name args bytes q w)
unfolding create_or_return
create_or_return-Kept k name args bytes q w h =
    Kept-bind
      (return_if_error-Kept (create k name args bytes q) w
        (λ v j. create-Kept k name args bytes q v j) h)
      λ out v j. ends j

perform_or_return-Kept :
    {J : Shape} (name : Text) (args : List ℕ) (q : Trace → Status) (w : World)
    → Holds J w
    → Keeps J (perform_or_return name args q w)
unfolding perform_or_return perform
perform_or_return-Kept name args q w h =
    return_if_error-Kept (do status ← perform name args [] q; pure (status, tt)) w (λ v j. ends j) h

pub release_run-Kept :
    {J : Shape} (context inputs outputs : ℕ) (w : World)
    → Holds J w
    → Keeps J (release_run context inputs outputs w)
unfolding release_run
release_run-Kept context inputs outputs w h = search kept_rules depth 12

ruleset call_rules =
    (reading_rules, create_or_return-Kept, perform_or_return-Kept, run_if_cuda_enabled-Kept)

-- An assignment of the dimensions.
resized :
    (p : Ptr) (dims : List ℕ) (w : World)
    → Owned w
    → Kept ((do t ← get_tensor p; set_tensor p (record t { dims = dims }); pure p) w)
unfolding get_tensor set_tensor
resized p dims w h = elim (Option-cases (w.tensors p)) [
  | inl e ↦ rw e (faults tt)
  | inr (t, e) ↦ rw e (
      ends (
        put_tensor h p (record t { dims = dims }) (tensor-le-last h p t e)
          (update-Fits h p t (record t { dims = dims }) e (inl refl) refl (inl refl) refl)))
]

module _ (api : Api) where
  pub load_program-Kept :
      {J : Shape} (instance_ptr device : ℕ) (driver_name : Text) (bytecode : List ℕ) (w : World)
      → Holds J w
      → Keeps J (load_program api instance_ptr device driver_name bytecode w)
  unfolding load_program
  load_program-Kept instance_ptr device driver_name bytecode w h = search call_rules depth 16

  input_ref-Kept :
      {J : Shape} (device input : ℕ) (w : World)
      → Holds J w
      → Keeps J (input_ref api device input w)
  unfolding input_ref
  input_ref-Kept device input w h = search call_rules depth 16

  push_ref-Kept :
      {J : Shape} (inputs ref : ℕ) (w : World) → Holds J w → Keeps J (push_ref api inputs ref w)
  unfolding push_ref
  push_ref-Kept inputs ref w h = search call_rules depth 12

  push_inputs-Kept :
      {J : Shape} (device inputs : ℕ) (rest : List Ptr) (w : World)
      → Holds J w
      → Keeps J (push_inputs api device inputs rest w)
  unfolding push_inputs
  push_inputs-Kept device inputs [] w h = ends h
  push_inputs-Kept {J} device inputs (input ∷ rest) w h =
      search
        (kept_rules, input_ref-Kept, push_ref-Kept, push_inputs-Kept {J = J} device inputs rest)
        depth 12

  pub get_view_retain-Kept :
      {J : Shape} (outputs i : ℕ) (w : World)
      → Holds J w
      → Keeps J (get_view_retain api outputs i w)
  unfolding get_view_retain
  get_view_retain-Kept outputs i w h = search kept_rules depth 12

  output_tensor-Kept :
      (device outputs i : ℕ) (w : World) → Owned w → Kept (output_tensor api device outputs i w)
  unfolding output_tensor
  output_tensor-Kept device outputs i w h =
      search (kept_rules, get_view_retain-Kept, tensor_of_view-Kept, copy_dims-Kept, resized) depth
        12

  collect_outputs-Kept :
      (device outputs i left : ℕ) (w : World)
      → Owned w
      → Kept (collect_outputs api device outputs i left w)
  unfolding collect_outputs
  collect_outputs-Kept device outputs i zero w h = ends h
  collect_outputs-Kept device outputs i (suc left) w h =
      search (kept_rules, output_tensor-Kept, collect_outputs-Kept device outputs (suc i) left)
        depth 12

  new_list-Kept : {J : Shape} (n : ℕ) (w : World) → Holds J w → Keeps J (new_list api n w)
  unfolding new_list
  new_list-Kept n w h = search call_rules depth 12

  pub make_inputs-Kept :
      {J : Shape} (device : Ptr) (exla_inputs : List Ptr) (w : World)
      → Holds J w
      → Keeps J (make_inputs api device exla_inputs w)
  unfolding make_inputs
  make_inputs-Kept device exla_inputs w h =
      search (kept_rules, new_list-Kept, push_inputs-Kept) depth 12

  pub invoke-Kept :
      {J : Shape} (context main_function inputs : ℕ) (w : World)
      → Holds J w
      → Keeps J (invoke api context main_function inputs w)
  unfolding invoke
  invoke-Kept context main_function inputs w h = search (call_rules, new_list-Kept) depth 16

  run_program-Kept :
      (device context main_function : ℕ) (exla_inputs : List Ptr) (w : World)
      → Owned w
      → Kept (run_program api device context main_function exla_inputs w)
  unfolding run_program
  run_program-Kept device context main_function exla_inputs w h =
      search (kept_rules, make_inputs-Kept, invoke-Kept, collect_outputs-Kept, release_run-Kept)
        depth 16

  pub call-Kept :
      (instance_ptr device : ℕ) (driver_name : Text) (bytecode : List ℕ) (exla_inputs : List Ptr)
      (w : World)
      → Owned w
      → Kept (call api instance_ptr device driver_name bytecode exla_inputs w)
  unfolding call
  call-Kept instance_ptr device driver_name bytecode exla_inputs w h =
      Kept-on_return _ _ (search (kept_rules, load_program-Kept, run_program-Kept) depth 12)
