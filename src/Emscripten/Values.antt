-- ===== src/Emscripten/Values.antt =====
-- Between JavaScript arrays and memory: the tensor constructor of cmake/src/emscripten_api.cc, and
-- data buffers and `iree_tensor_to_flat_js_array` of cmake/src/emscripten_api.h.
use nx_iree.Base.{
  ℕ, ◌*◌, ◌/◌, Option, none, some, List, ◌++◌, map, Bool, ◌||◌, Text, codes, ◌==◌, if◌then◌else◌,
}
use nx_iree.Base.Int.{to_u64}
use nx_iree.Machine.{Ptr, null, Cell, Tensor, M, pure, ◌>>=◌, ◌>>◌, stop_with, runtime_error}
use nx_iree.Machine.Memory.{
  malloc, load, store, split_at, new_tensor, get_tensor, get_device, determined, new_buffer,
  get_buffer,
}
use nx_iree.Api.{Api, is_ok}
use nx_iree.Status.{get_status_message}
use nx_iree.Types.{
  type_none, int_8, int_16, int_32, int_64, uint_8, uint_16, uint_32, uint_64, float_32, float_64,
  nx_type_to_iree_type,
}
use nx_iree.Tensor.{read_buffer}
use nx_iree.Browser.{Browser}

-- The constructor of a typed array and the bytes of an element, for the types that have one.
unfoldable pub array_of : ℕ → Option (Text × ℕ)
array_of type =
    if type == int_8
    then some (codes "Int8Array", 1)
    else if type == uint_8
    then some (codes "Uint8Array", 1)
    else if type == int_16
    then some (codes "Int16Array", 2)
    else if type == uint_16
    then some (codes "Uint16Array", 2)
    else if type == int_32
    then some (codes "Int32Array", 4)
    else if type == uint_32
    then some (codes "Uint32Array", 4)
    else if type == int_64
    then some (codes "BigInt64Array", 8)
    else if type == uint_64
    then some (codes "BigUint64Array", 8)
    else if type == float_32
    then some (codes "Float32Array", 4)
    else if type == float_64
    then some (codes "Float64Array", 8)
    else none

-- The types that the constructor takes.
unfoldable pub is_supported : ℕ → Bool
is_supported type =
    type == int_8
    || (type == uint_8
        || (type == int_16
            || (type == uint_16
                || (type == int_32
                    || (type == uint_32
                        || (type == int_64
                            || (type == uint_64 || (type == float_32 || type == float_64))))))))

-- A new typed array: its constructor and the bytes of its elements.
pub record TypedArray : Type 0 where
  pub constructor : Text
  pub bytes : List Cell

module _ (api : Api) (b : Browser) where
  open b use {Val}

  unfoldable pub unsupported : {A : Type 0} → ℕ → M A
  unsupported type =
      stop_with (runtime_error (codes "Unsupported element type: " ++ b.to_string type))

  -- The conversion and the copy, once the type is known.
  unfoldable pub fill_tensor : Ptr → ℕ → Val → Val → ℕ → Ptr → M Ptr
  fill_tensor data_ptr size input_data in_dims type device = do
    (bytes, _) ← split_at size (b.converted type input_data)
    store data_ptr bytes
    d ← get_device device
    new_tensor (record {
      data_ptr = data_ptr;
      size = size;
      dims = map to_u64 (b.numbers in_dims);
      elem_type = type;
      buffer_view = null;
      device = d.ref;
    })

  -- `IREETensor(emscripten::val, emscripten::val, std::string, std::shared_ptr<Device>)`.
  unfoldable pub tensor_of_js : Val → Val → Text → Ptr → M Ptr
  unfolding is_supported fill_tensor unsupported
  tensor_of_js input_data in_dims type_string device = do
    let size = b.byte_length input_data
    data_ptr ← malloc api.can_alloc size
    if data_ptr == null
        then stop_with (runtime_error (codes "Failed to allocate memory for tensor data"))
        else (do
          let type = nx_type_to_iree_type type_string
          if type == type_none
              then stop_with
                  (runtime_error (codes "Invalid type string: '" ++ (type_string ++ codes "'")))
              else if is_supported type
              then fill_tensor data_ptr size input_data in_dims type device
              else unsupported type)

  -- `nx_iree_data_buffer_t(emscripten::val)`.
  unfoldable pub data_buffer_of_js : Val → M Ptr
  data_buffer_of_js array = do
    let size = b.byte_length array
    data_ptr ← malloc api.can_alloc size
    if data_ptr == null then stop_with (runtime_error (codes "Failed to allocate memory.")) else (do
      store data_ptr (b.elements array)
      new_buffer (record { data_ptr = data_ptr; size = size }))

  -- `get_data`: the bytes that the view shows.
  unfoldable pub get_data : Ptr → M (List Cell)
  get_data buffer = do this ← get_buffer buffer; load this.data_ptr this.size

  -- Data on the device is read to where `data` points.
  unfoldable pub fetch_flat : Tensor → M (Unit {0})
  fetch_flat t = do
    device ← determined t.device
    if device == null
        then stop_with (runtime_error (codes "Tensor does not have a device."))
        else if t.buffer_view == null
        then stop_with (runtime_error (codes "Tensor does not have a buffer_view."))
        else (do
          status ← read_buffer api (some device) t.buffer_view t.data_ptr t.size
          if is_ok status then pure tt else (do
            message ← get_status_message api status
            stop_with (runtime_error (codes "Failed to read buffer: " ++ message))))

  unfoldable pub flat_array : Tensor → Option (Text × ℕ) → M TypedArray
  unfolding unsupported
  flat_array t none = unsupported t.elem_type
  flat_array t (some (constructor, width)) = do
    bytes ← load t.data_ptr (t.size / width * width)
    pure (record { constructor = constructor; bytes = bytes })

  -- `iree_tensor_to_flat_js_array`.
  unfoldable pub to_flat_array : Ptr → M TypedArray
  unfolding fetch_flat flat_array array_of
  to_flat_array tensor = do
    t ← get_tensor tensor
    if t.data_ptr == null then fetch_flat t else pure tt
    flat_array t (array_of t.elem_type)
