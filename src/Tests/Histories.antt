-- ===== src/Tests/Histories.antt =====
-- The theorems on histories, after one call of `allocate_buffer`.
use nx_iree.Base.{ℕ, ◌≡◌, ◌≢◌, refl, none, some, List, [], ◌∷◌, codes, text_eq, arith}
use nx_iree.Base.Int.{pos}
use nx_iree.Machine.{Ptr, Tensor, World, fault, double_free, start, null}
use nx_iree.Types.{nx_type_to_iree_type}
use nx_iree.Erlang.{hal_device, tensor}
use nx_iree.Nif.Terms.{get_list, get_string}
use nx_iree.Nif.Tensors.{deallocate_buffer}
use nx_iree.Nif.Transfer.{holding, host_tensor, allocate_buffer-holding}
use nx_iree.Nif.Program.{dispatch, table_1}
use nx_iree.Ownership.Heap.{Owned}
use nx_iree.Ownership.Store.{Content}
use nx_iree.Ownership.Histories.{History, begin, called, History-Owned, History-NoDoubleFree}
use nx_iree.Tests.Library.{
  library, emulator, Term, int_term, binary_term, nil_term, cell_term, resource_term, list_length,
  list_cell, int_of, binary_of, bytes_of, characters, resource_of, two_bytes,
}

abbrev arguments : List Term
arguments =
    binary_term two_bytes
    ∷ resource_term hal_device 40
    ∷ cell_term (int_term (pos 2)) nil_term
    ∷ cell_term (int_term (pos 117)) (cell_term (int_term (pos 56)) nil_term)
    ∷ []

abbrev pub u8 : ℕ
u8 = nx_type_to_iree_type (codes "u8")

abbrev pub allocated : World
allocated = holding (8 ∷ 9 ∷ []) (pos 2 ∷ []) u8 start

abbrev pub new_tensor : Tensor
new_tensor = host_tensor 1 (8 ∷ 9 ∷ []) (pos 2 ∷ []) u8

pub allocated-History : History library emulator allocated
unfolding get_list get_string list_length list_cell int_of binary_of bytes_of characters resource_of
    nx_type_to_iree_type text_eq dispatch
allocated-History = called (codes "allocate_buffer") arguments begin refl (
    allocate_buffer-holding library emulator (binary_term two_bytes) (resource_term hal_device 40)
      (cell_term (int_term (pos 2)) nil_term)
      (cell_term (int_term (pos 117)) (cell_term (int_term (pos 56)) nil_term)) (8 ∷ 9 ∷ []) 40
      (pos 2 ∷ []) (codes "u8") start (λ t n. refl)
      (record { data_read = refl; device_read = refl; dims_read = refl; name_read = refl })
      (omega arith))

History-Owned_example : Owned allocated × ((q : Ptr) → allocated.buffers q ≡ none)
History-Owned_example = History-Owned library emulator allocated allocated-History

History-NoDoubleFree_example :
    deallocate_buffer library emulator (resource_term tensor 2 ∷ []) allocated ≢ fault double_free
unfolding dispatch table_1 text_eq
History-NoDoubleFree_example =
    History-NoDoubleFree library emulator allocated (codes "deallocate_buffer")
      (resource_term tensor 2 ∷ [])
      (deallocate_buffer library emulator (resource_term tensor 2 ∷ [])) allocated-History refl

abbrev pub new_content : Content
new_content = record { members = record new_tensor { data_ptr = null }; bytes = some two_bytes }
