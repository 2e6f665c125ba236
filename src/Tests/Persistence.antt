-- ===== src/Tests/Persistence.antt =====
-- The theorems on what becomes of a tensor, at a tensor of two bytes that is serialised.
use nx_iree.Base.{◌≡◌, refl, [], ◌∷◌, codes, text_eq, text_eq_iff, arith}
use nx_iree.Base.Int.{pos, negsuc}
use nx_iree.Machine.{World, Res, ok, stop, fault, start}
use nx_iree.Machine.Memory.{malloc, store, load, get_tensor}
use nx_iree.Machine.Post.{Post}
use nx_iree.Types.{nx_type_to_iree_type}
use nx_iree.Erlang.{hal_device, tensor}
use nx_iree.Nif.Terms.{argument, get_list, get_string, ok_term}
use nx_iree.Nif.Tensors.{allocate_buffer, read_buffer_nif, serialize_tensor}
use nx_iree.Nif.Transfer.{copied_out}
use nx_iree.Nif.Program.{dispatch, table_1}
use nx_iree.Tensor.{serialize}
use nx_iree.Tensor.Bytes.{le_bytes, le_words}
use nx_iree.Ownership.Store.{store_of, Becomes}
use nx_iree.Ownership.Received.{received}
use nx_iree.Ownership.Transfers.{with_binary, History-transfer}
use nx_iree.Tensor.{wire}
use nx_iree.Base.{ℕ, List, map, none, some}
use nx_iree.Machine.{Ptr}
use nx_iree.Nif.Tensors.{deserialize_tensor}
use nx_iree.Base.Int.{to_u64}
use nx_iree.Ownership.Persistence.{Releases, Sparing, History-Persists}
use nx_iree.Ownership.Leaving.{Persists}
use nx_iree.Ownership.Histories.{begin}
use nx_iree.Ownership.Stored.{History-read_back}
use nx_iree.Tests.Histories.{allocated, allocated-History, new_content, new_tensor}
use nx_iree.Tests.Library.{
  library, emulator, Term, int_term, binary_term, nil_term, cell_term, resource_term, list_length,
  list_cell, int_of, binary_of, bytes_of, characters, resource_of, two_bytes,
}

spared : ¬ Releases emulator (codes "serialize_tensor") (resource_term tensor 2 ∷ []) 2
unfolding text_eq
spared r = cc ((text_eq_iff (codes "serialize_tensor") (codes "deallocate_buffer")).1 r.0)

History-Persists_example :
    Post
      (λ t v. Persists new_content (store_of v 2))
      (λ x v. Persists new_content (store_of v 2))
      (serialize_tensor library emulator (resource_term tensor 2 ∷ []) allocated)
unfolding dispatch table_1 text_eq
History-Persists_example =
    History-Persists library emulator allocated (codes "serialize_tensor")
      (resource_term tensor 2 ∷ [])
      (serialize_tensor library emulator (resource_term tensor 2 ∷ [])) 2 new_content
      allocated-History refl refl spared

-- Where a run ends.
abbrev after : Res Term → World
after (ok t w) = w
after (stop x w) = w
after (fault x) = start

abbrev serialized : World
serialized = after (serialize_tensor library emulator (resource_term tensor 2 ∷ []) allocated)

serialized_after : Sparing library emulator 2 allocated serialized
unfolding serialize_tensor serialize argument get_tensor load malloc store dispatch table_1 text_eq
    resource_of le_bytes le_words
serialized_after =
    Sparing.next (codes "serialize_tensor") (resource_term tensor 2 ∷ []) Sparing.begin refl spared
      refl

History-read_back_example :
    (allocate_buffer library emulator
        (binary_term two_bytes
          ∷ resource_term hal_device 40
          ∷ cell_term (int_term (pos 2)) nil_term
          ∷ cell_term (int_term (pos 117)) (cell_term (int_term (pos 56)) nil_term)
          ∷ [])
        start
      ≡ ok (ok_term emulator (resource_term tensor 2)) allocated)
    × (read_buffer_nif library emulator
          (resource_term hal_device 40)
          (resource_term tensor 2)
          (int_term (negsuc 0))
          serialized
        ≡ ok (ok_term emulator (binary_term two_bytes)) (copied_out (8 ∷ 9 ∷ []) serialized))
unfolding get_list get_string list_length list_cell int_of binary_of bytes_of characters resource_of
    nx_type_to_iree_type text_eq
History-read_back_example =
    History-read_back library emulator (binary_term two_bytes) (resource_term hal_device 40)
      (cell_term (int_term (pos 2)) nil_term)
      (cell_term (int_term (pos 117)) (cell_term (int_term (pos 56)) nil_term))
      (resource_term hal_device 40) (resource_term tensor 2) (int_term (negsuc 0)) (8 ∷ 9 ∷ []) 40
      40 (pos 2 ∷ []) (codes "u8") start serialized begin (λ t n. refl)
      (record { data_read = refl; device_read = refl; dims_read = refl; name_read = refl })
      (omega arith) (omega arith) serialized_after refl refl refl

-- What the tensor is sent as.
abbrev sent : List ℕ
sent = bytes_of (wire new_tensor two_bytes)

History-transfer_example :
    (serialize_tensor library emulator (resource_term tensor 2 ∷ []) allocated
      ≡ ok
          (ok_term emulator (binary_term (wire new_tensor two_bytes)))
          (with_binary (wire new_tensor two_bytes) allocated))
    × (q : Ptr) × (u : World) × (deserialize_tensor library emulator
          (binary_term (map some sent) ∷ [])
          start
        ≡ ok (ok_term emulator (resource_term tensor q)) u)
    × (store_of start q ≡ none)
    × Becomes
        (store_of start)
        q
        (some (record { members = received new_tensor; bytes = some two_bytes }))
        (store_of u)
unfolding nx_type_to_iree_type text_eq to_u64 binary_of bytes_of resource_of wire le_bytes le_words
History-transfer_example =
    History-transfer library emulator allocated library emulator start (resource_term tensor 2)
      (binary_term (map some sent)) 2 new_tensor two_bytes [] sent allocated-History begin
      (λ t n. refl) (λ t n. refl) refl refl
      (record {
        type_fits = omega arith;
        size_fits = omega arith;
        dims_fit = (omega arith, tt);
        rank_fits = omega arith;
      })
      (omega arith) refl refl refl
