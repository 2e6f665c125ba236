-- ===== src/Nif.antt =====
-- c_src/nx_iree.cc: the functions that Elixir calls, over the NIF interface and the runtime.
pub mod Terms
pub mod Tensors
pub mod Devices
pub mod Program
pub mod Lists
pub mod Transfer
pub mod Faults
pub mod Runs
pub mod Results
pub mod Retried
pub mod Listing
