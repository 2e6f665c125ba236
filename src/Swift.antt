-- ===== src/Swift.antt =====
-- The C API for Swift: c_src/nx_iree.cpp of embedded_devices/live_nx_iree/native/swiftui/LiveNxIREE,
-- which is compiled against the copy of runtime.h beside it, in nx_iree/include/nx_iree.
pub mod Listing
pub mod Strings
pub mod Images
pub mod Outputs
pub mod Runs
pub mod Calls
pub mod Layout
pub mod Exports
use nx_iree.Base.{
  ℕ, zero, suc, ◌+◌, ◌*◌, ◌%◌, ◌^◌, Option, none, some, List, [], ◌∷◌, map, Text, codes, length,
  ◌==◌, ltb, if◌then◌else◌,
}
use nx_iree.Base.Int.{to_i64}
use nx_iree.Machine.{
  Ptr, null, Status, Cell, M, pure, ◌>>=◌, ◌>>◌, fail, stop_with, bad_alloc, out_of_bounds,
  null_deref,
}
use nx_iree.Machine.Memory.{
  malloc, operator_new, free, store, get_tensor, set_tensor, free_tensor, get_device,
}
use nx_iree.Api.{Api, is_ok}
use nx_iree.Types.{uint_8, uint_32, float_32}
use nx_iree.Status.{get_status_message}
use nx_iree.Tensor.Bytes.{le_bytes}
use nx_iree.Tensor.{tensor_of_data, deserialize, serialize, read_buffer}
use nx_iree.Discovery
use nx_iree.Call.{call}

-- `nx_iree_release_device`.
unfoldable pub release_device : Ptr → M (Unit {0})
release_device device = pure tt

-- The dimensions left to read, as `uint64_t`.
unfoldable pub read_dims : ℕ → List ℕ → M (List ℕ)
read_dims zero dims = pure []
read_dims (suc n) [] = fail out_of_bounds
read_dims (suc n) (d ∷ dims) = do ds ← read_dims n dims; pure (d ∷ ds)

-- `input_size *= input_dims[i]`.
unfoldable pub product : ℕ → List ℕ → ℕ
product size [] = size
product size (d ∷ dims) = product (size * d % 2 ^ 64) dims

-- `~IREETensor` as the copy of the header has it, and the storage.
unfoldable pub delete_inline : Ptr → M (Unit {0})
delete_inline this = do
  t ← get_tensor this
  if t.data_ptr == null
      then pure tt
      else (free t.data_ptr >> set_tensor this (record t { data_ptr = null }))
  free_tensor this

-- The clean-up after a call: `free(input->data)` and `free(input)`.
unfoldable pub free_inputs : List Ptr → M (Unit {0})
free_inputs [] = pure tt
free_inputs (input ∷ inputs) = do
  t ← get_tensor input
  free t.data_ptr
  set_tensor input (record t { data_ptr = null; dims = [] })
  free_tensor input
  free_inputs inputs

-- `vector[i]`, which is not checked.
unfoldable pub element : ℕ → List Ptr → M Ptr
element i [] = fail out_of_bounds
element zero (p ∷ ps) = pure p
element (suc i) (p ∷ ps) = element i ps

module _ (api : Api) where
  unfoldable pub create_device : Text → M Ptr
  create_device device_uri = do
    driver_registry ← Discovery.get_driver_registry api
    status ← Discovery.register_all_drivers api driver_registry
    Discovery.create_device api driver_registry device_uri

  unfoldable pub create_instance : M Ptr
  create_instance = Discovery.create_instance api

  -- The message without a terminator, and `nullptr`.
  unfoldable pub report : {A : Type 0} → Ptr → Status → M (Option A)
  report error_message status = do
    message ← get_status_message api status
    store error_message (map some message)
    pure none

  -- The tensors of an image, the seed and the amount of noise, of which eight bytes are read.
  unfoldable pub image_inputs : List Cell → ℕ → List ℕ → ℕ → ℕ → M (List Ptr)
  image_inputs input_data input_size dims seed noise_amount = do
    image ← tensor_of_data api input_data input_size (map to_i64 dims) uint_8
    seed_tensor ← tensor_of_data api (le_bytes 4 seed) 4 [] uint_32
    noise_tensor ← tensor_of_data api (le_bytes 4 noise_amount) 8 [] float_32
    pure (image ∷ seed_tensor ∷ noise_tensor ∷ [])

  -- What follows once the output was copied.
  finish_image : Ptr → Ptr → Status → M (Option Ptr)
  finish_image tensor output status = do
    t ← get_tensor tensor
    free t.data_ptr
    set_tensor tensor (record t { data_ptr = null; dims = [] })
    free t.buffer_view
    free_tensor tensor
    message ← get_status_message api status
    pure (some output)

  copy_image : Ptr → ℕ → Ptr → List Ptr → M (Option Ptr)
  unfolding element report finish_image
  copy_image device input_size error_message results = do
    tensor ← element 0 results
    t ← get_tensor tensor
    output ← operator_new api.can_alloc t.size
    status ← read_buffer api (some device) t.buffer_view output input_size
    if is_ok status then finish_image tensor output status else report error_message status

  -- `nx_iree_image_call`; `none` is the null pointer, of the input and of the result.
  unfoldable pub image_call :
      Ptr → Ptr → List ℕ → List ℕ → Option (List Cell) → Ptr → ℕ → ℕ → M (Option Ptr)
  unfolding read_dims product image_inputs free_inputs copy_image report
  image_call vm device bytecode input_dims none error_message seed noise_amount = pure none
  image_call vm device bytecode input_dims (some input_data) error_message seed noise_amount = do
    dims ← read_dims 3 input_dims
    let input_size = product 1 dims
    inputs ← image_inputs input_data input_size dims seed noise_amount
    (status, optional_result) ← call api vm device (codes "not_cuda") bytecode inputs
    free_inputs inputs
    if is_ok status
        then elim optional_result [
          | none ↦ report error_message status
          | some results ↦ copy_image device input_size error_message results
        ]
        else report error_message status

  unfoldable pub read_inputs : List (List Cell) → M (List Ptr)
  read_inputs [] = pure []
  read_inputs (serialized ∷ rest) = do
    input ← deserialize api serialized
    inputs ← read_inputs rest
    pure (input ∷ inputs)

  -- `serialized->size()` is read before anything is tested.
  unfoldable pub copy_serialized : Option (List Cell) → M (Ptr × ℕ)
  copy_serialized none = fail null_deref
  copy_serialized (some serialized) = do
    p ← operator_new api.can_alloc (length serialized)
    store p serialized
    pure (p, length serialized)

  -- Output `i`: its bytes and how many.
  unfoldable pub write_output : List Ptr → ℕ → M (Ptr × ℕ)
  unfolding element copy_serialized delete_inline
  write_output result i = do
    tensor ← element i result
    serialized ← serialize api tensor
    output ← copy_serialized serialized
    delete_inline tensor
    pure output

  -- The loop over the outputs left, from `i` on.
  unfoldable pub write_outputs : List Ptr → ℕ → ℕ → M (List (Ptr × ℕ))
  unfolding write_output
  write_outputs result i zero = pure []
  write_outputs result i (suc left) = do
    output ← write_output result i
    outputs ← write_outputs result (suc i) left
    pure (output ∷ outputs)

  -- `new char *[n]`, which throws where the size would be too large.
  unfoldable pub new_array : ℕ → M Ptr
  new_array n =
      if ltb (n * 8) (2 ^ 64) then operator_new api.can_alloc (n * 8) else stop_with bad_alloc

  -- What follows the call, by its status.
  unfoldable pub finish_call : ℕ → Ptr → Status × Option (List Ptr) → M (Option (List (Ptr × ℕ)))
  unfolding write_outputs report new_array
  finish_call num_outputs error_message (status, optional_result) =
      if is_ok status
      then elim optional_result [
        | none ↦ report error_message status
        | some result ↦ (do
          array ← new_array num_outputs
          outputs ← write_outputs result 0 num_outputs
          pure (some outputs))
      ]
      else report error_message status

  -- `nx_iree_call`; `none` is the null pointer.
  unfoldable pub run_call :
      Ptr → Ptr → List ℕ → List (List Cell) → ℕ → Ptr → M (Option (List (Ptr × ℕ)))
  unfolding read_inputs finish_call
  run_call vm device bytecode serialized_inputs num_outputs error_message = do
    inputs ← read_inputs serialized_inputs
    result ← call api vm device (codes "not_cuda") bytecode inputs
    finish_call num_outputs error_message result
