-- ===== src/Tests/Sessions.antt =====
-- The theorems on sessions of the browser, at an array of two bytes on the device that the module makes.
use nx_iree.Api.{create}
use nx_iree.Base.{
  length-replicate, arith, inl, length, ◌≡◌, refl, [], ◌∷◌, none, some, codes, text_eq,
}
use nx_iree.Machine.{Device, World, Res, ok_status, ok, stop, fault, start}
use nx_iree.Machine.Memory.{
  get_buffer, new_buffer, malloc, store, load, get_tensor, determined, new_device, split_at,
  get_device, new_tensor, free_tensor, free, set_tensor,
}
use nx_iree.Machine.Post.{Post, Safe}
use nx_iree.Types.{nx_type_to_iree_type}
use nx_iree.Tensor.{tensor_of_view, deallocate, delete_tensor, serialize}
use nx_iree.Tensor.Bytes.{le_bytes, le_words}
use nx_iree.Emscripten.{all_bytes, read_data, serialize_iree_tensor, run_call}
use nx_iree.Emscripten.SyncDevice.{create_local_sync_device}
use nx_iree.Emscripten.Values.{get_data, tensor_of_js, data_buffer_of_js, to_flat_array, array_of}
use nx_iree.Emscripten.Arrays.{with_js, js_tensor}
use nx_iree.Ownership.Store.{Content, content, store_of}
use nx_iree.Ownership.Leaving.{Persists}
use nx_iree.Ownership.Sessions.{
  device_created, tensor_created, tensor_serialized, tensor_dropped, buffer_created, called,
  perform_action, Session, begin, next,
}
use nx_iree.Ownership.Browsing.{Avoiding, Sparing, Avoiding-Session, Session-Persists}
use nx_iree.Ownership.Returned.{Session-flat_array}
use nx_iree.Ownership.DataBuffers.{Alters, Session-get_data}
use nx_iree.Call.{call}
use nx_iree.Ownership.Shown.{AllShown, Session-AllShown}
use nx_iree.Tests.Runs.{library-Obliging, library-Delivering}
use nx_iree.Call.Remote.{Invocation, program_outputs}
use nx_iree.Tests.Clients.{browser}
use nx_iree.Tests.Library.{library, two_bytes}

-- Where an action ends.
abbrev after : Res (Unit {0}) → World
after (ok u w) = w
after (stop e w) = w
after (fault x) = start

-- The device object is at 1.
abbrev with_local : World
with_local = after (perform_action library browser device_created start)

abbrev local_device : Device
local_device = record {
  uri = codes "local-sync://local-sync";
  ref = some 74;
  driver_name = codes "local-sync";
  id = none;
}

with_local-Session : Session library browser with_local
unfolding perform_action create_local_sync_device create determined new_device
with_local-Session = next device_created begin refl

-- The tensor is at 3.
abbrev with_array : World
with_array = with_js library browser (8 ∷ 9 ∷ []) (2 ∷ []) (codes "u8") 1 local_device with_local

-- It is serialised; a tensor of a type that is not there throws; another is made, at 6, and let go.
abbrev sent : World
sent = after (perform_action library browser (tensor_serialized 3) with_array)

abbrev refused : World
refused =
    after (perform_action library browser (tensor_created (1 ∷ []) (1 ∷ []) (codes "i8") 1) sent)

abbrev two_tensors : World
two_tensors =
    after (perform_action library browser (tensor_created (1 ∷ []) (1 ∷ []) (codes "s8") 1) refused)

abbrev let_go : World
let_go = after (perform_action library browser (tensor_dropped 6) two_tensors)

with_array-Session : Session library browser with_array
unfolding perform_action create_local_sync_device create determined new_device serialize_iree_tensor
    serialize get_tensor load le_bytes le_words tensor_of_js malloc store split_at get_device
    new_tensor nx_type_to_iree_type text_eq delete_tensor deallocate free_tensor free set_tensor
with_array-Session =
    next (tensor_created (8 ∷ 9 ∷ []) (2 ∷ []) (codes "u8") 1) with_local-Session refl

two_Sparing : Sparing library browser 3 with_array two_tensors
unfolding perform_action create_local_sync_device create determined new_device serialize_iree_tensor
    serialize get_tensor load le_bytes le_words tensor_of_js malloc store split_at get_device
    new_tensor nx_type_to_iree_type text_eq delete_tensor deallocate free_tensor free set_tensor
two_Sparing =
    Avoiding.next (tensor_created (1 ∷ []) (1 ∷ []) (codes "s8") 1)
      (Avoiding.caught (tensor_created (1 ∷ []) (1 ∷ []) (codes "i8") 1)
        (Avoiding.next (tensor_serialized 3) Avoiding.begin (λ x. x) refl) (λ x. x) refl)
      (λ x. x) refl

sparing : Sparing library browser 3 with_array let_go
unfolding perform_action create_local_sync_device create determined new_device serialize_iree_tensor
    serialize get_tensor load le_bytes le_words tensor_of_js malloc store split_at get_device
    new_tensor nx_type_to_iree_type text_eq delete_tensor deallocate free_tensor free set_tensor
sparing = Avoiding.next (tensor_dropped 6) two_Sparing (omega arith) refl

Session-flat_array_example :
    (tensor_of_js library browser (8 ∷ 9 ∷ []) (2 ∷ []) (codes "u8") 1 with_local ≡ ok 3 with_array)
    × (to_flat_array library browser 3 let_go
        ≡ ok (record { constructor = codes "Uint8Array"; bytes = two_bytes }) let_go)
unfolding perform_action create_local_sync_device create determined new_device nx_type_to_iree_type
    text_eq array_of
Session-flat_array_example =
    Session-flat_array library browser (8 ∷ 9 ∷ []) (2 ∷ []) (codes "u8") 1 local_device with_local
      (codes "Uint8Array") 1 let_go with_local-Session refl refl refl refl refl sparing

abbrev array_content : Content
array_content =
    content with_array.blocks
      (js_tensor library browser (8 ∷ 9 ∷ []) (2 ∷ []) (codes "u8") 1 local_device with_local)

-- The other tensor is let go.
Session-Persists_example :
    Post
      (λ u v. Persists array_content (store_of v 3))
      (λ e v. Persists array_content (store_of v 3))
      (perform_action library browser (tensor_dropped 6) two_tensors)
unfolding perform_action create_local_sync_device create determined new_device serialize_iree_tensor
    serialize get_tensor load le_bytes le_words tensor_of_js malloc store split_at get_device
    new_tensor nx_type_to_iree_type text_eq delete_tensor deallocate free_tensor free set_tensor
Session-Persists_example =
    Session-Persists library browser (tensor_dropped 6) two_tensors 3 array_content
      (Avoiding-Session library browser with_array-Session two_Sparing) refl (omega arith)

-- The bytecode is in a buffer at 5.
abbrev with_code : World
with_code = after (perform_action library browser (buffer_created (1 ∷ 2 ∷ [])) with_array)

with_code-Session : Session library browser with_code
unfolding data_buffer_of_js new_buffer perform_action create_local_sync_device create determined
    new_device serialize_iree_tensor serialize get_tensor load le_bytes le_words tensor_of_js malloc
    store split_at get_device new_tensor nx_type_to_iree_type text_eq delete_tensor deallocate
    free_tensor free set_tensor
with_code-Session = next (buffer_created (1 ∷ 2 ∷ [])) with_array-Session refl

Session-AllShown_example :
    Safe
      (λ r v.
        (r.0 ≡ ok_status)
        × (length r.1 ≡ 1)
        × ((x : Invocation) × AllShown library browser 74 v r.1 (program_outputs library 74 1 x)))
      (λ e v. ⊥)
      (run_call library 10 1 5 (3 ∷ []) with_code)
unfolding data_buffer_of_js new_buffer perform_action create_local_sync_device create determined
    new_device serialize_iree_tensor serialize get_tensor load le_bytes le_words tensor_of_js malloc
    store split_at get_device new_tensor nx_type_to_iree_type text_eq delete_tensor deallocate
    free_tensor free set_tensor
Session-AllShown_example =
    Session-AllShown library browser 74 1 local_device 1 10 5 (record { data_ptr = 4; size = 2 })
      (1 ∷ 2 ∷ []) (3 ∷ []) with_code with_code-Session library-Obliging library-Delivering refl
      refl refl refl refl
      (
        (
          js_tensor library browser (8 ∷ 9 ∷ []) (2 ∷ []) (codes "u8") 1 local_device with_local,
          refl,
          inl (omega arith, refl),
        ),
        tt,
      )

-- The program's output is at 6.
abbrev with_output : World
with_output = after (perform_action library browser (called 10 1 5 (3 ∷ [])) with_code)

with_output-Session : Session library browser with_output
unfolding data_buffer_of_js new_buffer perform_action create_local_sync_device create determined
    new_device serialize_iree_tensor serialize get_tensor load le_bytes le_words tensor_of_js malloc
    store split_at get_device new_tensor nx_type_to_iree_type text_eq delete_tensor deallocate
    free_tensor free set_tensor run_call get_buffer all_bytes call tensor_of_view
with_output-Session = next (called 10 1 5 (3 ∷ [])) with_code-Session refl

Session-get_data_example :
    (v : World) × (read_data library 1 6 2 with_output ≡ ok (ok_status, some 9) v)
    × ((u : World)
        → Avoiding library browser (Alters library browser 9) v u
        → get_data library browser 9 u ≡ ok (some 7 ∷ some 7 ∷ []) u)
unfolding data_buffer_of_js new_buffer perform_action create_local_sync_device create determined
    new_device serialize_iree_tensor serialize get_tensor load le_bytes le_words tensor_of_js malloc
    store split_at get_device new_tensor nx_type_to_iree_type text_eq delete_tensor deallocate
    free_tensor free set_tensor run_call get_buffer all_bytes call tensor_of_view
Session-get_data_example =
    Session-get_data library browser 1 6 74 2 local_device _ with_output with_output-Session refl
      (λ t d b n h. length-replicate n 7) refl refl refl (omega arith) (omega arith) refl refl
