-- ===== src/Ownership.antt =====
-- Who owns host memory: every host copy belongs to one tensor (cmake/src/runtime.cc) or one data
-- buffer (cmake/src/emscripten_api.h), in the states that a history of calls of the handlers of
-- c_src/nx_iree.cc, or a session of the browser, leads to.
pub mod Heap
pub mod Changes
pub mod Rules
pub mod Memory
pub mod Ready
pub mod Tensors
pub mod Release
pub mod Devices
pub mod Runs
pub mod Handlers
pub mod Store
pub mod Filling
pub mod Safety
pub mod Received
pub mod Buffers
pub mod Bufferless
pub mod Browser
pub mod Arrays
pub mod Sessions
pub mod Growth
pub mod Growing
pub mod Made
pub mod Histories
pub mod Frames
pub mod Leaving
pub mod Persistence
pub mod Stored
pub mod Surviving
pub mod Browsing
pub mod Returned
pub mod Shown
pub mod DataBuffers
pub mod Transfers
pub mod Live
pub mod Calls
pub mod Swift
pub mod Exports
