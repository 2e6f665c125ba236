-- ===== src/Tests/Calls.antt =====
-- The theorems on whole calls of the clients' APIs, on the library that grants every wish.
use nx_iree.Base.{codes, ℕ, ◌≢◌, none, ◌≡◌, refl, length, map, some, List, [], ◌∷◌, arith}
use nx_iree.Machine.{
  out_of_bounds, Ptr, Device, DataBuffer, World, start, update, call_to, acquire, instance_kind,
  fault, double_free, host_alloc,
}
use nx_iree.Machine.Memory.{malloc, new_buffer}
use nx_iree.Emscripten.{drop_data_buffer, new_data_buffer}
use nx_iree.Ownership.Heap.{Owned}
use nx_iree.Ownership.Exports
use nx_iree.Ownership.Exports.{
  Export, instance_created, perform_export, Sequence, Sequence-NoDoubleFree,
}
use nx_iree.Discovery
use nx_iree.Api.{create, perform}
use nx_iree.Ownership.Sessions.{
  Action, buffer_allocated, perform_action, Session, begin, next, Session-Safe,
}
use nx_iree.Tests.Clients.{browser}
use nx_iree.Machine.Post.{Safe}
use nx_iree.Emscripten.SyncDevice.{create_device_with_loaders}
use nx_iree.Emscripten.Loaders.{AllGive, Balanced, create_device_with_loaders-Balanced}
use nx_iree.Swift
use nx_iree.Swift.Runs.{AllSent}
use nx_iree.Call.Remote.{Invocation, program_outputs}
use nx_iree.Swift.Calls.{Source, buffer, run_call-AllSent, run_call-past_end}
use nx_iree.Tests.Library.{library, device_copy, host_copy, two_bytes, state_with}
use nx_iree.Tests.Runs.{library-Obliging, library-Delivering}

abbrev sync_device : Device
sync_device = record { uri = []; ref = some 40; driver_name = []; id = some 0 }

abbrev bytecode : DataBuffer
bytecode = record { data_ptr = 7; size = 2 }

-- The device object is at 5, and a buffer with the bytecode at 6.
abbrev with_device : World
with_device = record (state_with device_copy) {
  devices = update start.devices 5 (some sync_device);
  buffers = update start.buffers 6 (some bytecode);
  blocks = update (state_with device_copy).blocks 7 (some (some 1 ∷ some 2 ∷ []));
  last = 7;
}

abbrev sources : List Source
sources = (host_copy, two_bytes, some 3 ∷ []) ∷ []

run_call-AllSent_example :
    Safe
      (λ r v.
        (outputs : List (Ptr × ℕ)) × (x : Invocation) × (r ≡ some outputs)
        × (length outputs ≡ 1)
        × AllSent library 40 v.blocks outputs (program_outputs library 40 1 x))
      (λ e v. ⊥)
      (Swift.run_call library 10 40 (1 ∷ 2 ∷ []) (map buffer sources) 1 9 start)
run_call-AllSent_example =
    run_call-AllSent library library-Delivering 1 10 40 (1 ∷ 2 ∷ []) sources 1 9 start
      library-Obliging
      (
        record {
          type_fits = omega arith;
          size_fits = omega arith;
          dims_fit = (omega arith, tt);
          rank_fits = omega arith;
        },
        refl,
        tt,
      )
      (omega arith) (omega arith)

run_call-past_end_example :
    Swift.run_call library 10 40 (1 ∷ 2 ∷ []) (map buffer sources) 2 9 start ≡ fault out_of_bounds
run_call-past_end_example =
    run_call-past_end library library-Delivering 1 10 40 (1 ∷ 2 ∷ []) sources 2 9 start
      library-Obliging
      (
        record {
          type_fits = omega arith;
          size_fits = omega arith;
          dims_fit = (omega arith, tt);
          rank_fits = omega arith;
        },
        refl,
        tt,
      )
      (omega arith) (omega arith)

-- The state after a data buffer of two bytes was allocated.
abbrev with_buffer : World
with_buffer = record start {
  blocks = update start.blocks 1 (some (none ∷ none ∷ []));
  buffers = update start.buffers 2 (some (record { data_ptr = 1; size = 2 }));
  last = 2;
  trace = host_alloc 2 ∷ [];
}

with_buffer-Session : Session library browser with_buffer
unfolding perform_action new_data_buffer malloc new_buffer
with_buffer-Session = next (buffer_allocated 2) begin refl

Session-Safe_example :
    Owned with_buffer
    × ((a : Action browser) → perform_action library browser a with_buffer ≢ fault double_free)
    × ((p : Ptr) (x : DataBuffer)
        → with_buffer.buffers p ≡ some x
        → Safe
            (λ u v.
              (v.buffers p ≡ none)
              × (v.blocks x.data_ptr ≡ none)
              × (v.tensors ≡ with_buffer.tensors))
            (λ e v. ⊥)
            (drop_data_buffer p with_buffer))
Session-Safe_example = Session-Safe library browser with_buffer with_buffer-Session

library-AllGive : AllGive library
library-AllGive = record {
  manager = λ t. ((λ e. omega arith), λ ne. absurd (ne refl));
  system_loader = λ t m. ((λ e. omega arith), λ ne. absurd (ne refl));
  vmvx_loader = λ t. ((λ e. omega arith), λ ne. absurd (ne refl));
  heap = λ t name. ((λ e. omega arith), λ ne. absurd (ne refl));
  device = λ t name loaders a. ((λ e. omega arith), λ ne. absurd (ne refl));
}

create_device_with_loaders-Balanced_example :
    Safe (Balanced start) (λ e v. ⊥) (create_device_with_loaders library start)
create_device_with_loaders-Balanced_example =
    create_device_with_loaders-Balanced library start library-AllGive

-- The state after an instance was created and its types were registered.
abbrev with_instance : World
with_instance = record start {
  trace =
      call_to (codes "iree_hal_module_register_all_types") (10 ∷ []) []
      ∷ acquire instance_kind 10
      ∷ call_to (codes "iree_vm_instance_create") [] []
      ∷ [];
}

with_instance-Sequence : Sequence library with_instance
unfolding perform_export Swift.create_instance Discovery.create_instance create perform
with_instance-Sequence = Exports.next instance_created Exports.begin refl

Sequence-NoDoubleFree_example :
    Owned with_instance
    × ((a : Export) → perform_export library a with_instance ≢ fault double_free)
Sequence-NoDoubleFree_example = Sequence-NoDoubleFree library with_instance with_instance-Sequence
