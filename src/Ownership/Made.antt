-- ===== src/Ownership/Made.antt =====
-- The outputs of `call` (cmake/src/runtime.cc) are new tensors, and the others stay as they are.
use nx_iree.Base.{
  ℕ, zero, suc, ◌<◌, inl, inr, Option, some, List, Bool-cases, Option-cases, ◌==◌, Text, [], ◌∷◌,
  none,
}
use nx_iree.Machine.{Ptr, null, World, pure, ◌>>=◌, ◌>>◌}
use nx_iree.Machine.Memory.{get_tensor, set_tensor}
use nx_iree.Api.{Api}
use nx_iree.Tensor.{tensor_of_view, copy_dims}
use nx_iree.Call.Outputs.{output_view, retained}
use nx_iree.Call.{output_tensor, collect_outputs, run_program, call}
use nx_iree.Ownership.Rules.{ends, faults, stops, Run, Run-bind, Keeps, Run-mono, Run-on_return}
use nx_iree.Ownership.Tensors.{copy_dims-Kept}
use nx_iree.Ownership.Runs.{release_run-Kept, load_program-Kept, make_inputs-Kept, invoke-Kept}
use nx_iree.Ownership.Growth.{IsGrown, Grown, put_tensor-Grown}
use nx_iree.Ownership.Growing.{tensor_of_view-Grown}

-- The objects at `ps` are new.
abbrev pub AllNew : World → List Ptr → Type 0
AllNew old [] = Unit {0}
AllNew old (p ∷ ps) = (old.last < p) × AllNew old ps

abbrev pub ResultsNew : World → Option (List Ptr) → Type 0
ResultsNew old none = Unit {0}
ResultsNew old (some ps) = AllNew old ps

module _ (api : Api) {old : World} where
  -- The dimensions of a tensor that the run made.
  resized-Grown :
      (p : Ptr) (dims : List ℕ) (w : World)
      → old.last < p
      → Grown old w
      → Run
          (IsGrown old)
          (λ q v. Grown old v × (old.last < q))
          ((do t ← get_tensor p; set_tensor p (record t { dims = dims }); pure p) w)
  unfolding get_tensor set_tensor
  resized-Grown p dims w lt g = elim (Option-cases (w.tensors p)) [
    | inl e ↦ rw e (faults tt)
    | inr (t, e) ↦ rw e (ends (put_tensor-Grown p (record t { dims = dims }) lt g, lt))
  ]

  -- The tensor of a view, with its dimensions copied again.
  made :
      (view device rank : ℕ) (dims : List ℕ) (type : ℕ) (w : World)
      → Grown old w
      → Run
          (IsGrown old)
          (λ p v. Grown old v × (old.last < p))
          ((do
            p ← tensor_of_view api view type device
            ds ← copy_dims rank dims
            t ← get_tensor p
            set_tensor p (record t { dims = ds })
            pure p)
            w)
  made view device rank dims type w g =
      Run-bind (tensor_of_view-Grown api view type device w g)
        λ p v (k, lt). Run-bind (copy_dims-Kept rank dims v k) λ ds u k. resized-Grown p ds u lt k

  output_tensor-Grown :
      (device outputs i : ℕ) (w : World)
      → Grown old w
      → Run
          (IsGrown old)
          (λ p v. Grown old v × (old.last < p))
          (output_tensor api device outputs i w)
  unfolding output_tensor
  output_tensor-Grown device outputs i w g =
      let view = output_view api device outputs i w in
      let t = retained api device outputs i w in
      elim (Bool-cases (view == null)) [
        | inl e ↦ rw e (stops g)
        | inr e ↦ rw e (
            made view device (api.view_shape_rank t view) (api.view_shape_dims t view)
              (api.view_element_type t view) (record w { trace = t }) g)
      ]

  collect_outputs-Grown :
      (device outputs i left : ℕ) (w : World)
      → Grown old w
      → Run
          (IsGrown old)
          (λ ps v. Grown old v × AllNew old ps)
          (collect_outputs api device outputs i left w)
  unfolding collect_outputs
  collect_outputs-Grown device outputs i zero w g = ends (g, tt)
  collect_outputs-Grown device outputs i (suc left) w g =
      Run-bind (output_tensor-Grown device outputs i w g) λ p v (k, lt).
        Run-bind (collect_outputs-Grown device outputs (suc i) left v k)
          λ ps u (k, all). ends (k, (lt, all))

  run_program-Grown :
      (device context main_function : ℕ) (exla_inputs : List Ptr) (w : World)
      → Grown old w
      → Run
          (IsGrown old)
          (λ r v. Grown old v × ResultsNew old r.1)
          (run_program api device context main_function exla_inputs w)
  unfolding run_program
  run_program-Grown device context main_function exla_inputs w g =
      Run-bind (make_inputs-Kept api device exla_inputs w g) λ inputs v k.
        Run-bind (invoke-Kept api context main_function inputs v k) λ r u k.
          Run-bind (collect_outputs-Grown device r.0 0 r.1 u k) λ ps x (k, all).
            Run-bind (release_run-Kept context inputs r.0 x k) λ _ y k. ends (k, all)

  pub call-New :
      (instance_ptr device : ℕ) (driver_name : Text) (bytecode : List ℕ) (exla_inputs : List Ptr)
      (w : World)
      → Grown old w
      → Run
          (IsGrown old)
          (λ r v. Grown old v × ResultsNew old r.1)
          (call api instance_ptr device driver_name bytecode exla_inputs w)
  unfolding call
  call-New instance_ptr device driver_name bytecode exla_inputs w g =
      Run-on_return (λ status. (status, none)) (λ s v k. (k, tt))
        (Run-bind (load_program-Kept api instance_ptr device driver_name bytecode w g)
          λ c v k. run_program-Grown device c.0 c.1 exla_inputs v k)

  pub call-Grown :
      (instance_ptr device : ℕ) (driver_name : Text) (bytecode : List ℕ) (exla_inputs : List Ptr)
      (w : World)
      → Grown old w
      → Keeps (IsGrown old) (call api instance_ptr device driver_name bytecode exla_inputs w)
  call-Grown instance_ptr device driver_name bytecode exla_inputs w g =
      Run-mono (call-New instance_ptr device driver_name bytecode exla_inputs w g) λ r v k. k.0
