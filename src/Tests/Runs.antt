-- ===== src/Tests/Runs.antt =====
-- The theorems on `call` at a concrete run, with one input and one output.
use nx_iree.Base.{
  length-replicate, ℕ, ◌+◌, ◌≤◌, ◌≡◌, ◌⊎◌, refl, Option, none, some, List, [], ◌∷◌, codes, arith,
}
use nx_iree.Machine.{
  World, Res, ok, stop, fault, start, ok_status, runtime_error, module_kind, context_kind,
  list_kind,
}
use nx_iree.Machine.Post.{Post}
use nx_iree.Machine.Ledger.{view_disposed, Owed, Settled}
use nx_iree.Machine.Memory.{get_tensor, new_tensor, set_tensor}
use nx_iree.Tensor.{deallocate, run_if_cuda_enabled, tensor_of_view}
use nx_iree.Call.{call}
use nx_iree.Call.Balance.{NoneDropped, call-balance}
use nx_iree.Call.Moves.{IsRemote, call-deallocate}
use nx_iree.Call.Remote.{Delivering}
use nx_iree.Call.Obliging.{Obliging}
use nx_iree.Api.{Api}
use nx_iree.Base.{length, if◌then◌else◌, ◌==◌}
use nx_iree.Erlang.{vm_instance, hal_device}
use nx_iree.Nif.Terms.{get_list, get_string}
use nx_iree.Nif.Program.{call_nif}
use nx_iree.Nif.Retried.{twice_tried, call_nif-retried}
use nx_iree.Base.Int.{pos}
use nx_iree.Tests.Library.{
  library, device_copy, state_with, emulator, int_term, binary_term, nil_term, cell_term,
  resource_term, list_length, list_cell, int_of, binary_of, bytes_of, characters, resource_of,
  two_bytes,
}

abbrev run : Res (ℕ × Option (List ℕ))
run = call library 10 40 (codes "local-sync") (1 ∷ 2 ∷ []) (2 ∷ []) (state_with device_copy)

call-balance_example :
    Post
      (λ r v.
        ((rs : List ℕ) × (r ≡ (ok_status, some rs))
          × Owed module_kind 2 (state_with device_copy) v
          × Settled context_kind (state_with device_copy) v
          × Settled list_kind (state_with device_copy) v)
        ⊎ ((r.1 ≡ none) × NoneDropped (state_with device_copy) v))
      (λ e v. NoneDropped (state_with device_copy) v)
      (call library 10 40 (codes "local-sync") (1 ∷ 2 ∷ []) (2 ∷ []) (state_with device_copy))
call-balance_example =
    call-balance library (λ t i d h. omega arith, λ t i c h. omega arith) 10 40 (codes "local-sync")
      (1 ∷ 2 ∷ []) (2 ∷ []) (state_with device_copy)

state_after : Res (ℕ × Option (List ℕ)) → World
state_after (ok a w) = w
state_after (stop e w) = w
state_after (fault x) = start

device_copy-IsRemote : IsRemote 2 device_copy (state_with device_copy)
device_copy-IsRemote = record {
  here = refl;
  known = omega arith;
  viewed = omega arith;
  no_copy = refl;
}

run_succeeds : run ≡ ok (ok_status, some (3 ∷ [])) (state_after run)
unfolding call state_after run_if_cuda_enabled get_tensor tensor_of_view new_tensor set_tensor
run_succeeds = refl

call-deallocate_example :
    (x : World) × (deallocate 2 (state_after run) ≡ ok tt x)
    × (0 + 1 + 1 ≤ view_disposed 90 x.trace)
unfolding view_disposed
call-deallocate_example =
    call-deallocate library 10 40 (codes "local-sync") (1 ∷ 2 ∷ []) (2 ∷ []) 2 device_copy
      (state_with device_copy) (state_after run) (3 ∷ []) device_copy-IsRemote run_succeeds

pub library-Obliging : Obliging library 1
library-Obliging = record {
  host = refl;
  hal = λ t i d. refl;
  bytecode = λ t i c. refl;
  context = λ t i h b. refl;
  resolve = λ t c name. refl;
  lists = λ t k. refl;
  push = λ t l r. refl;
  copy = λ t d dims type b. refl;
  signature = λ t f. refl;
  results = λ t f. refl;
  run = λ t c f i o. refl;
  views = λ t l i. omega arith;
  ranks = λ t v. refl;
}

pub library-Delivering : Delivering library
library-Delivering = record {
  grants = λ t n. refl;
  whole = λ t d b n h. length-replicate n 7;
  copies = λ t d b n. refl;
  views = λ t v. omega arith;
  types = λ t v. omega arith;
  dims = λ t v. (omega arith, tt);
  ranks = λ t v. omega arith;
  buffers = λ t b. omega arith;
}

-- A library that creates the HAL module when it is asked a second time.
abbrev hesitant : Api
hesitant = record library {
  hal_module_create = λ t i d. if length t == 0 then (2, none) else (ok_status, some 50);
}

call_nif-retried_example :
    (call hesitant 10 40 (codes "u8") (8 ∷ 9 ∷ []) [] start
      ≡ ok (ok_status, none) (twice_tried hesitant 10 40 start))
    × (call_nif hesitant emulator
          (resource_term vm_instance 10)
          (resource_term hal_device 40)
          (cell_term (int_term (pos 117)) (cell_term (int_term (pos 56)) nil_term))
          (binary_term two_bytes)
          nil_term
          start
        ≡ stop (runtime_error (codes "bad_optional_access")) (twice_tried hesitant 10 40 start))
unfolding get_list get_string list_length list_cell int_of binary_of bytes_of characters resource_of
call_nif-retried_example =
    call_nif-retried hesitant emulator (resource_term vm_instance 10) (resource_term hal_device 40)
      (cell_term (int_term (pos 117)) (cell_term (int_term (pos 56)) nil_term))
      (binary_term two_bytes) nil_term 10 40 (codes "u8") (8 ∷ 9 ∷ []) [] start refl
      (record {
        vm_read = refl;
        device_read = refl;
        name_read = refl;
        bytecode_read = refl;
        inputs_read = refl;
      })
      (omega arith) refl
