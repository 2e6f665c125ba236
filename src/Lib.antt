-- ===== src/Lib.antt =====
-- The runtime behind NxIREE: the C++ code of cmake/src, c_src and of the embedded clients,
-- which runs compiled programs on the IREE library.
--
-- The parts, and where each is modelled:
--
-- - Machine: the state the code runs on. Host memory is a map from pointers to blocks of bytes
--   that may be uninitialised, tensor, device and data buffer objects have maps of their own,
--   and a trace records every call of the IREE library that changes something. A run ends with
--   a value, stops by an early return or an exception, or is at fault: undefined behaviour of
--   the C++ code is a value of the model. Machine/Memory has malloc, free, memcpy and the
--   objects; Machine/Ledger counts references from the trace; Machine/Post and Machine/Laws
--   have what proofs about runs share.
-- - Api: the IREE library and the allocator, which are not part of the repository. Each
--   function of the library is a field of a record, a function of the trace and its arguments,
--   so that it may answer anything, and differently each time. A theorem names what it needs of
--   a field.
-- - Erlang: the NIF interface of the emulator, a record in the same way.
-- - Tensor (cmake/src/runtime.cc, runtime.h): the class IREETensor and read_buffer.
-- - Types (cmake/src/runtime.cc, c_src/nx_iree.cc): names and codes of element types.
-- - Discovery (cmake/src/runtime.cc): instances, drivers and devices.
-- - Call (cmake/src/runtime.cc): the run of a program; its parts are the sections of the
--   function call. The macro RETURN_PAIR_IF_ERROR is return_if_error, which makes a failing
--   call a second time. Call/Remote says which tensors are a run's outputs: those that the
--   library hands out for the list that iree_vm_invoke filled. Nif/Retried is about a second
--   call that succeeds.
-- - Status (cmake/src/runtime.cc): get_status_message.
-- - Nif (c_src/nx_iree.cc): the handlers, named as the C functions are, and the function table.
-- - Browser and Emscripten (cmake/src/emscripten_api.cc, emscripten_api.h): Embind's
--   conversions as a record, and the API for the browser, without the prefix nx_iree of its
--   functions; run_call is nx_iree_call, read_data is nx_iree_read_buffer, to_flat_array is
--   iree_tensor_to_flat_js_array. Shared pointers are pointers, and what their destructors do
--   are the functions named drop.
-- - Swift (embedded_devices/live_nx_iree/native/swiftui/LiveNxIREE/c_src/nx_iree.cpp): the C
--   API for Swift, also without the prefix; run_call is nx_iree_call. It is compiled against
--   the copy of runtime.h in nx_iree/include/nx_iree, whose destructor is delete_inline.
-- - Runtime (cmake/src/runtime.h), Swift/Exports (nx_iree.h of the Swift client): the functions
--   that the headers declare, as records. Swift/Layout compares the members of the classes in
--   the two copies of runtime.h.
-- - Ownership: who owns host memory. Ownership/Heap has the invariant of a state, Changes to
--   Handlers the reason that each operation keeps it, by one rule for each way to build a run;
--   Growth to Stored the reason that the other tensors stay as they are, and Surviving to
--   DataBuffers the same for tensors and data buffers of the browser; Bufferless says why the
--   NIFs make no data buffers; Histories has the states that sequences of handler calls lead
--   to, with any terms as arguments. A history goes on only after calls that end: undefined
--   behaviour and exceptions end the program. Ownership/Exports has the same invariant for
--   sequences of calls of the C functions that Swift sees, without what Swift itself frees, and
--   Ownership/Sessions for sessions of the browser: the calls of the module, writes to the
--   properties that it exports, and the destructors of objects whose last owner goes.
--   JavaScript may catch exceptions, so a session goes on after them.
-- - Tests: the theorems at concrete inputs.
--
-- Bounds: size_t and uint64_t have 64 bits, as in the NIF and on the clients' devices (in the
-- browser's build, which has 32-bit sizes, the fields of the wire form are shorter), and
-- conversions to and from int64_t wrap around. Loops are structural recursion on the list they
-- run over, or on the rounds left; the loop of get_list runs on fuel, the length of the list
-- that the emulator reports, which is enough because a proper list ends with it.
--
-- Not modelled: the vendored IREE headers, the Elixir, Swift and JavaScript code, the output to
-- the console, tracing, and storage that is never read again: vectors that are returned by
-- pointer and strings of the library. CUDA is the step that makes the device's context current.
-- Theorems that concern a device leave it out where they say so.
--
-- Taken as given: malloc and operator new are one heap, in which free may be handed the storage
-- of either, though C++ does not promise it; the vectors that serialize fills are granted their
-- memory; an indeterminate pointer that is copied and not used is no fault; the storage of
-- statuses is the library's.
mod Base
pub mod Machine
pub mod Types
pub mod Api
pub mod Tensor
pub mod Discovery
pub mod Call
pub mod Runtime
pub mod Status
pub mod Erlang
pub mod Nif
pub mod Browser
pub mod Emscripten
pub mod Swift
pub mod Ownership
pub mod Tests
