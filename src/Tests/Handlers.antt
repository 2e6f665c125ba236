-- ===== src/Tests/Handlers.antt =====
-- The theorems on the handlers at concrete arguments.
use nx_iree.Base.{ℕ, ◌≡◌, refl, List, [], ◌∷◌, arith}
use nx_iree.Base.Int.{ℤ, pos, negsuc}
use nx_iree.Machine.{fault, null_deref}
use nx_iree.Erlang.{hal_device, tensor}
use nx_iree.Nif.Terms.{list_loop, open_resource, load_nif}
use nx_iree.Nif.Lists.{list_loop-enough, load_nif-success, read_all}
use nx_iree.Nif.Tensors.{read_buffer_nif}
use nx_iree.Nif.Faults.{ReadArguments, read_buffer_nif-empty}
use nx_iree.Tests.Library.{
  library, emulator, Term, int_term, binary_term, nil_term, cell_term, resource_term, cells,
  list_length, list_cell, int_of, resource_of, opens, no_copy, two_bytes, state_with,
}

abbrev one_and_two : List Term
one_and_two = int_term (pos 1) ∷ int_term (negsuc 1) ∷ []

list_loop-enough_example :
    list_loop emulator int_of 5 (cells one_and_two) ≡ read_all int_of one_and_two
unfolding cells list_length list_cell
list_loop-enough_example =
    list_loop-enough emulator int_of (cells one_and_two) one_and_two 5
      (refl, (cells (int_term (negsuc 1) ∷ []), refl, (refl, (nil_term, refl, (refl, refl)))))
      (omega arith)

abbrev u8_list : Term
u8_list = cell_term (int_term (pos 117)) (cell_term (int_term (pos 56)) nil_term)

load_nif-success_example : (open_resource emulator tensor ≡ negsuc 0) × (load_nif emulator ≡ pos 0)
unfolding opens
load_nif-success_example = load_nif-success emulator tensor refl

abbrev device_term : Term
device_term = resource_term hal_device 40

abbrev bytes : List ℕ
bytes = 8 ∷ 9 ∷ []

abbrev bytes_term : Term
bytes_term = binary_term two_bytes

abbrev dims_term : Term
dims_term = cell_term (int_term (pos 2)) nil_term

read_arguments :
    (n : ℤ) → ReadArguments emulator device_term (resource_term tensor 2) (int_term n) 40 2 n
unfolding resource_of int_of
read_arguments n = record { device_read = refl; input_read = refl; num_bytes_read = refl }

read_buffer_nif-empty_example :
    read_buffer_nif library emulator device_term
      (resource_term tensor 2)
      (int_term (negsuc 0))
      (state_with no_copy)
    ≡ fault null_deref
read_buffer_nif-empty_example =
    read_buffer_nif-empty library emulator device_term (resource_term tensor 2)
      (int_term (negsuc 0)) 40 2 no_copy (state_with no_copy) (read_arguments (negsuc 0)) refl refl
      refl (omega arith) (omega arith) refl
