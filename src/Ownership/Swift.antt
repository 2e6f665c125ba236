-- ===== src/Ownership/Swift.antt =====
-- Who owns host memory in the C API for Swift: nx_iree_call of c_src/nx_iree.cpp in
-- embedded_devices/live_nx_iree/native/swiftui/LiveNxIREE.
use nx_iree.Base.{ℕ, zero, suc, ◌≡◌, ◌≢◌, Option, none, some, List, [], ◌∷◌, Option-cases, inl, inr}
use nx_iree.Machine.{Ptr, Status, Cell, World, ok, fault, double_free}
use nx_iree.Machine.Memory.{get_tensor}
use nx_iree.Api.{Api}
use nx_iree.Swift.{
  delete_inline, report, read_inputs, copy_serialized, write_output, write_outputs, new_array,
  element, finish_call, run_call,
}
use nx_iree.Swift.Outputs.{delete_inline_lem}
use nx_iree.Ownership.Heap.{Owned}
use nx_iree.Ownership.Changes.{drop_tensor}
use nx_iree.Ownership.Rules.{
  Kept, Kept-bind, Kept-Owned, Kept-NoDoubleFree, ends, faults, kept_rules,
}
use nx_iree.Ownership.Memory.{memory_rules}
use nx_iree.Ownership.Tensors.{deserialize-Kept, serialize-Kept}
use nx_iree.Ownership.Release.{Owned-Holds, without_data-Owned}
use nx_iree.Ownership.Devices.{get_status_message-Kept}
use nx_iree.Ownership.Runs.{call-Kept}

delete_inline-Kept : (p : Ptr) (w : World) → Owned w → Kept (delete_inline p w)
unfolding delete_inline get_tensor
delete_inline-Kept p w h = elim (Option-cases (w.tensors p)) [
  | inl e ↦ rw e (faults tt)
  | inr (t, e) ↦
      rw (delete_inline_lem p t w (Owned-Holds p t w h e))
        (ends (drop_tensor (without_data-Owned p t w h e) p))
]

element-Kept : (i : ℕ) (ps : List Ptr) (w : World) → Owned w → Kept (element i ps w)
unfolding element
element-Kept i [] w h = faults tt
element-Kept zero (p ∷ ps) w h = ends h
element-Kept (suc i) (p ∷ ps) w h = element-Kept i ps w h

module _ (api : Api) where
  report-Kept :
      {A : Type 0} (message : Ptr) (s : Status) (w : World)
      → Owned w
      → Kept (report api {A = A} message s w)
  unfolding report
  report-Kept message s w h = search (memory_rules, get_status_message-Kept) depth 12

  read_inputs-Kept :
      (inputs : List (List Cell)) (w : World) → Owned w → Kept (read_inputs api inputs w)
  unfolding read_inputs
  read_inputs-Kept [] w h = ends h
  read_inputs-Kept (x ∷ inputs) w h =
      search (kept_rules, deserialize-Kept, read_inputs-Kept inputs) depth 12

  copy_serialized-Kept :
      (s : Option (List Cell)) (w : World) → Owned w → Kept (copy_serialized api s w)
  unfolding copy_serialized
  copy_serialized-Kept none w h = faults tt
  copy_serialized-Kept (some s) w h = search memory_rules depth 12

  write_output-Kept :
      (result : List Ptr) (i : ℕ) (w : World) → Owned w → Kept (write_output api result i w)
  unfolding write_output
  write_output-Kept result i w h =
      search (kept_rules, element-Kept, serialize-Kept, copy_serialized-Kept, delete_inline-Kept)
        depth 12

  write_outputs-Kept :
      (result : List Ptr) (i left : ℕ) (w : World)
      → Owned w
      → Kept (write_outputs api result i left w)
  unfolding write_outputs
  write_outputs-Kept result i zero w h = ends h
  write_outputs-Kept result i (suc left) w h =
      search (kept_rules, write_output-Kept, write_outputs-Kept result (suc i) left) depth 12

  new_array-Kept : (n : ℕ) (w : World) → Owned w → Kept (new_array api n w)
  unfolding new_array
  new_array-Kept n w h = search memory_rules depth 12

  finish_call-Kept :
      (n message : ℕ) (r : Status × Option (List Ptr)) (w : World)
      → Owned w
      → Kept (finish_call api n message r w)
  unfolding finish_call
  finish_call-Kept n message (s, none) w h = search (kept_rules, report-Kept)
  finish_call-Kept n message (s, some result) w h =
      search (kept_rules, report-Kept, new_array-Kept, write_outputs-Kept) depth 12

  pub run_call-Kept :
      (vm device : Ptr) (bytecode : List ℕ) (inputs : List (List Cell)) (n message : ℕ) (w : World)
      → Owned w
      → Kept (run_call api vm device bytecode inputs n message w)
  unfolding run_call
  run_call-Kept vm device bytecode inputs n message w h =
      Kept-bind (read_inputs-Kept inputs w h) λ ps v k.
        Kept-bind (call-Kept api vm device _ bytecode ps v k)
          λ r u j. finish_call-Kept n message r u j

  -- From a state in which host memory has its owners, the `nx_iree_call` of the API for Swift
  -- frees no block twice, on any bytes as inputs, any number of outputs and whatever the
  -- library answers; and where it ends, with outputs or with null, host memory has its owners
  -- again.
  pub run_call-NoDoubleFree :
      (vm device : Ptr) (bytecode : List ℕ) (inputs : List (List Cell)) (n message : ℕ) (w : World)
      → Owned w
      → (run_call api vm device bytecode inputs n message w ≢ fault double_free)
        × ((outputs : Option (List (Ptr × ℕ))) (v : World)
            → run_call api vm device bytecode inputs n message w ≡ ok outputs v
            → Owned v)
  run_call-NoDoubleFree vm device bytecode inputs n message w h =
      (Kept-NoDoubleFree kept, λ outputs v e. Kept-Owned kept e)
    where
      kept : Kept (run_call api vm device bytecode inputs n message w)
      kept = run_call-Kept vm device bytecode inputs n message w h
