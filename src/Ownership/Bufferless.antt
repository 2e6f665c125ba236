-- ===== src/Ownership/Bufferless.antt =====
-- The functions of c_src/nx_iree.cc, and what they call of cmake/src/runtime.cc, make no data buffers,
-- which are the browser's.
use nx_iree.Base.{
  ℕ, suc, zero, ◌≡◌, inl, inr, Option, none, some, List, [], ◌∷◌, Text, Bool, Bool-cases,
  Option-cases, arith, ◌==◌, length, leb,
}
use nx_iree.Base.Int.{ℤ}
use nx_iree.Machine.{Ptr, null, Cell, Tensor, Trace, World}
use nx_iree.Machine.Memory.{malloc, operator_new, store, new_tensor, set_tensor, get_tensor}
use nx_iree.Api.{Api}
use nx_iree.Erlang.{Env, tensor}
use nx_iree.Nif.Terms.{argument}
use nx_iree.Tensor.Lifetime.{deallocated, deallocate_lem}
use nx_iree.Tensor.{
  deallocate, tensor_of_view, tensor_of_data, deserialize, transfer_d2h, read_buffer, fetch_data,
  serialize, resize_dims,
}
use nx_iree.Call.{output_tensor, collect_outputs, run_program, call}
use nx_iree.Nif.Tensors.{
  read_into, read_checked, read_buffer_nif, allocate_checked, allocate_buffer, serialized_binary,
  serialize_tensor, deserialize_tensor, deallocate_buffer,
}
use nx_iree.Nif.Program.{call_nif}
use nx_iree.Ownership.Heap.{Owned, Blocks, Tensors, Buffers}
use nx_iree.Ownership.Rules.{Run-bind, ends, faults, Keeps, Stable, Kept-on_return, kept_rules}
use nx_iree.Ownership.Memory.{reading_rules}
use nx_iree.Ownership.Tensors.{copy_dims-Kept, run_if_cuda_enabled-Kept}
use nx_iree.Ownership.Devices.{get_status_message-Kept}
use nx_iree.Ownership.Release.{Owned-Holds}
use nx_iree.Ownership.Runs.{
  get_view_retain-Kept, make_inputs-Kept, invoke-Kept, release_run-Kept, load_program-Kept,
}
use nx_iree.Ownership.Handlers.{argument-Kept, answer_call-Kept}

pub record IsBufferless (blocks : Blocks) (tensors : Tensors) (buffers : Buffers) (last : Ptr)
    : Type 0 where
  pub none_there : (q : Ptr) → buffers q ≡ none

abbrev pub Bufferless : World → Type 0
Bufferless w = IsBufferless w.blocks w.tensors w.buffers w.last

pub IsBufferless-Stable : Stable IsBufferless
IsBufferless-Stable = record { raised = λ h. record { none_there = h.none_there } }

malloc-Bufferless :
    (c : Trace → ℕ → Bool) (n : ℕ) (w : World) → Bufferless w → Keeps IsBufferless (malloc c n w)
unfolding malloc
malloc-Bufferless c n w h = elim (Bool-cases (c w.trace n)) [
  | inl e ↦ rw e (ends (record { none_there = h.none_there }))
  | inr e ↦ rw e (ends (record { none_there = h.none_there }))
]

operator_new-Bufferless :
    (c : Trace → ℕ → Bool) (n : ℕ) (w : World)
    → Bufferless w
    → Keeps IsBufferless (operator_new c n w)
unfolding operator_new
operator_new-Bufferless c n w h = search (kept_rules, malloc-Bufferless) depth 12

store-Bufferless :
    (p : Ptr) (cs : List Cell) (w : World) → Bufferless w → Keeps IsBufferless (store p cs w)
unfolding store
store-Bufferless p cs w h = elim (Bool-cases (length cs == 0)) [
  | inl e ↦ rw e (ends h)
  | inr e ↦ rw e (elim (Bool-cases (p == null)) [
    | inl z ↦ rw z (faults tt)
    | inr nz ↦ rw nz (elim (Option-cases (w.blocks p)) [
      | inl gone ↦ rw gone (faults tt)
      | inr (b, there) ↦ rw there (elim (Bool-cases (leb (length cs) (length b))) [
        | inl le ↦ rw le (ends (record { none_there = h.none_there }))
        | inr gt ↦ rw gt (faults tt)
      ])
    ])
  ])
]

new_tensor-Bufferless :
    (t : Tensor) (w : World) → Bufferless w → Keeps IsBufferless (new_tensor t w)
unfolding new_tensor
new_tensor-Bufferless t w h = ends (record { none_there = h.none_there })

set_tensor-Bufferless :
    (p : Ptr) (t : Tensor) (w : World) → Bufferless w → Keeps IsBufferless (set_tensor p t w)
unfolding set_tensor
set_tensor-Bufferless p t w h = ends (record { none_there = h.none_there })

ruleset making_rules = (
  reading_rules, malloc-Bufferless, operator_new-Bufferless, store-Bufferless,
  new_tensor-Bufferless, set_tensor-Bufferless, copy_dims-Kept, run_if_cuda_enabled-Kept,
)

resize_dims-Bufferless :
    (api : Api) (n : ℕ) (w : World) → Bufferless w → Keeps IsBufferless (resize_dims api n w)
unfolding resize_dims
resize_dims-Bufferless api n w h = search kept_rules depth 12

module _ (api : Api) where
  tensor_of_view-Bufferless :
      (view type device : ℕ) (w : World)
      → Bufferless w
      → Keeps IsBufferless (tensor_of_view api view type device w)
  unfolding tensor_of_view
  tensor_of_view-Bufferless view type device w h = search making_rules depth 12

  tensor_of_data-Bufferless :
      (src : List Cell) (size : ℕ) (dims : List ℤ) (type : ℕ) (w : World)
      → Bufferless w
      → Keeps IsBufferless (tensor_of_data api src size dims type w)
  unfolding tensor_of_data
  tensor_of_data-Bufferless src size dims type w h = search making_rules depth 16

  deserialize-Bufferless :
      (buffer : List Cell) (w : World)
      → Bufferless w
      → Keeps IsBufferless (deserialize api buffer w)
  unfolding deserialize
  deserialize-Bufferless buffer w h = search (making_rules, resize_dims-Bufferless) depth 40

  transfer_d2h-Bufferless :
      (device buffer output n : ℕ) (w : World)
      → Bufferless w
      → Keeps IsBufferless (transfer_d2h api device buffer output n w)
  unfolding transfer_d2h
  transfer_d2h-Bufferless device buffer output n w h = search making_rules depth 12

  read_buffer-Bufferless :
      (device : Option Ptr) (view output n : ℕ) (w : World)
      → Bufferless w
      → Keeps IsBufferless (read_buffer api device view output n w)
  unfolding read_buffer
  read_buffer-Bufferless device view output n w h =
      search (making_rules, transfer_d2h-Bufferless) depth 16

  fetch_data-Bufferless :
      (this : Ptr) (w : World) → Bufferless w → Keeps IsBufferless (fetch_data api this w)
  unfolding fetch_data
  fetch_data-Bufferless this w h = search (making_rules, read_buffer-Bufferless) depth 16

  serialize-Bufferless :
      (this : Ptr) (w : World) → Bufferless w → Keeps IsBufferless (serialize api this w)
  unfolding serialize
  serialize-Bufferless this w h = search (making_rules, fetch_data-Bufferless) depth 20

  output_tensor-Bufferless :
      (device outputs i : ℕ) (w : World)
      → Bufferless w
      → Keeps IsBufferless (output_tensor api device outputs i w)
  unfolding output_tensor
  output_tensor-Bufferless device outputs i w h =
      search (making_rules, get_view_retain-Kept, tensor_of_view-Bufferless) depth 16

  collect_outputs-Bufferless :
      (device outputs i left : ℕ) (w : World)
      → Bufferless w
      → Keeps IsBufferless (collect_outputs api device outputs i left w)
  unfolding collect_outputs
  collect_outputs-Bufferless device outputs i zero w h = ends h
  collect_outputs-Bufferless device outputs i (suc left) w h =
      search
        (
          kept_rules,
          output_tensor-Bufferless,
          collect_outputs-Bufferless device outputs (suc i) left,
        )
        depth 12

  run_program-Bufferless :
      (device context main_function : ℕ) (exla_inputs : List Ptr) (w : World)
      → Bufferless w
      → Keeps IsBufferless (run_program api device context main_function exla_inputs w)
  unfolding run_program
  run_program-Bufferless device context main_function exla_inputs w h =
      search
        (kept_rules, make_inputs-Kept, invoke-Kept, collect_outputs-Bufferless, release_run-Kept)
        depth 16

  call-Bufferless :
      (instance_ptr device : ℕ) (name : Text) (bytecode : List ℕ) (exla_inputs : List Ptr)
      (w : World)
      → Bufferless w
      → Keeps IsBufferless (call api instance_ptr device name bytecode exla_inputs w)
  unfolding call
  call-Bufferless instance_ptr device name bytecode exla_inputs w h =
      Kept-on_return _ _ (search (kept_rules, load_program-Kept, run_program-Bufferless) depth 12)

module _ (api : Api) (e : Env) where
  open e use {Term}

  read_into-Bufferless :
      (device : Ptr) (t : Tensor) (binary n : ℕ) (w : World)
      → Bufferless w
      → Keeps IsBufferless (read_into api e device t binary n w)
  unfolding read_into
  read_into-Bufferless device t binary n w h =
      search (making_rules, read_buffer-Bufferless, get_status_message-Kept) depth 16

  read_checked-Bufferless :
      (device input : Ptr) (n : ℤ) (w : World)
      → Bufferless w
      → Keeps IsBufferless (read_checked api e device input n w)
  unfolding read_checked
  read_checked-Bufferless device input n w h = search (making_rules, read_into-Bufferless) depth 16

  pub read_buffer_nif-Bufferless :
      (a0 a1 a2 : Term) (w : World)
      → Bufferless w
      → Keeps IsBufferless (read_buffer_nif api e a0 a1 a2 w)
  unfolding read_buffer_nif
  read_buffer_nif-Bufferless a0 a1 a2 w h =
      search (kept_rules, argument-Kept, read_checked-Bufferless) depth 12

  allocate_checked-Bufferless :
      (binary : List ℕ) (dims : List ℤ) (type : Text) (w : World)
      → Bufferless w
      → Keeps IsBufferless (allocate_checked api e binary dims type w)
  unfolding allocate_checked
  allocate_checked-Bufferless binary dims type w h =
      search (kept_rules, tensor_of_data-Bufferless) depth 16

  pub allocate_buffer-Bufferless :
      (a0 a1 a2 a3 : Term) (w : World)
      → Bufferless w
      → Keeps IsBufferless (allocate_buffer api e (a0 ∷ a1 ∷ a2 ∷ a3 ∷ []) w)
  unfolding allocate_buffer
  allocate_buffer-Bufferless a0 a1 a2 a3 w h =
      search (kept_rules, argument-Kept, allocate_checked-Bufferless) depth 12

  pub deserialize_tensor-Bufferless :
      (a0 : Term) (w : World)
      → Bufferless w
      → Keeps IsBufferless (deserialize_tensor api e (a0 ∷ []) w)
  unfolding deserialize_tensor
  deserialize_tensor-Bufferless a0 w h =
      search (kept_rules, argument-Kept, deserialize-Bufferless) depth 16

  serialized_binary-Bufferless :
      (s : Option (List Cell)) (w : World)
      → Bufferless w
      → Keeps IsBufferless (serialized_binary api e s w)
  unfolding serialized_binary
  serialized_binary-Bufferless none w h = (faults tt)
  serialized_binary-Bufferless (some s) w h = search making_rules depth 16

  pub serialize_tensor-Bufferless :
      (a0 : Term) (w : World)
      → Bufferless w
      → Keeps IsBufferless (serialize_tensor api e (a0 ∷ []) w)
  unfolding serialize_tensor
  serialize_tensor-Bufferless a0 w h =
      search (kept_rules, argument-Kept, serialize-Bufferless, serialized_binary-Bufferless) depth
        16

  pub call_nif-Bufferless :
      (a0 a1 a2 a3 a4 : Term) (w : World)
      → Bufferless w
      → Keeps IsBufferless (call_nif api e a0 a1 a2 a3 a4 w)
  unfolding call_nif
  call_nif-Bufferless a0 a1 a2 a3 a4 w h =
      search (kept_rules, argument-Kept, call-Bufferless, answer_call-Kept) depth 12

  deallocated-Bufferless :
      (this : Ptr) (t : Tensor) (w : World) → Bufferless w → Bufferless (deallocated this t w)
  deallocated-Bufferless this t w h = record { none_there = λ q. ground (arith, h.none_there q) }

  -- In a state that owns its memory, the host copy is freed once only.
  deallocate-Bufferless :
      (this : Ptr) (w : World) → Owned w → Bufferless w → Keeps IsBufferless (deallocate this w)
  unfolding deallocate get_tensor
  deallocate-Bufferless this w o h = elim (Option-cases (w.tensors this)) [
    | inl gone ↦ rw gone (faults tt)
    | inr (t, here) ↦
        rw (deallocate_lem this t w (Owned-Holds this t w o here))
          (ends (deallocated-Bufferless this t w h))
  ]

  pub deallocate_buffer-Bufferless :
      (a0 : Term) (w : World)
      → Owned w
      → Bufferless w
      → Keeps IsBufferless (deallocate_buffer api e (a0 ∷ []) w)
  unfolding deallocate_buffer argument
  deallocate_buffer-Bufferless a0 w o h = elim (Option-cases (e.get_resource tensor a0)) [
    | inl x ↦ rw x (ends h)
    | inr (q, x) ↦ rw x (Run-bind (deallocate-Bufferless q w o h) λ _ v k. ends k)
  ]
