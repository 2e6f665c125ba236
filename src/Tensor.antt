-- ===== src/Tensor.antt =====
-- `iree::runtime::IREETensor` of cmake/src/runtime.h and runtime.cc: its constructors, its
-- destructor, `serialize`, and `read_buffer`. `size_t` has 64 bits.
pub mod Bytes
pub mod RoundTrip
pub mod Truncated
pub mod Lifetime
pub mod Fetch
use nx_iree.Base.{
  ℕ, zero, suc, ◌+◌, ◌-◌, ◌*◌, ◌^◌, Option, none, some, List, [], ◌∷◌, ◌++◌, map, Bool, true, false,
  ◌&&◌, codes, contains, length, take, ◌==◌, ltb, if◌then◌else◌,
}
use nx_iree.Base.Int.{ℤ, to_u64}
use nx_iree.Machine.{
  Ptr, null, Status, ok_status, Cell, Tensor, view_kind, release, call_to, host_alloc, M, pure,
  ◌>>=◌, ◌>>◌, fail, stop_with, bad_alloc, log, ask, out_of_bounds, null_deref,
}
use nx_iree.Machine.Memory.{
  malloc, operator_new, free, load, store, split_at, new_tensor, get_tensor, set_tensor,
  free_tensor, determined,
}
use nx_iree.Api.{Api}
use Bytes.{le_bytes, le_value, le_words, le_values}

-- `(size_t)-1`.
abbrev pub size_max : ℕ
size_max = 2 ^ 64 - 1

-- What goes over the wire, from the bytes behind `data`: type, size, data, rank and dimensions.
unfoldable pub wire : Tensor → List Cell → List Cell
wire t bytes =
    le_bytes 4 t.elem_type
    ++ (le_bytes 8 t.size ++ (bytes ++ (le_bytes 8 (length t.dims) ++ le_words t.dims)))

-- `for (i = 0; i < rank; i++) dims.push_back(hal_dims[i])`, over the dimensions left.
unfoldable pub copy_dims : ℕ → List ℕ → M (List ℕ)
copy_dims zero hal_dims = pure []
copy_dims (suc rank) [] = fail out_of_bounds
copy_dims (suc rank) (d ∷ hal_dims) = do ds ← copy_dims rank hal_dims; pure (d ∷ ds)

unfoldable pub deallocate : Ptr → M (Unit {0})
deallocate this = do
  t ← get_tensor this
  if t.data_ptr == null
      then pure tt
      else (free t.data_ptr >> set_tensor this (record t { data_ptr = null }))
  u ← get_tensor this
  if u.buffer_view == null
      then pure tt
      else (log (release view_kind u.buffer_view)
          >> set_tensor this (record u { buffer_view = null }))

-- `delete tensor`: the destructor, and then the storage.
unfoldable pub delete_tensor : Ptr → M (Unit {0})
unfolding deallocate
delete_tensor this = do deallocate this; free_tensor this

module _ (api : Api) where
  -- The branch `RUN_IF_CUDA_ENABLED`, which makes the device's context current; the library's
  -- functions read the device.
  unfoldable pub run_if_cuda_enabled : Bool → Option Ptr → M (Unit {0})
  run_if_cuda_enabled test device =
      if api.cuda_enabled && test
      then (do
        d ← determined device
        if d == null then fail null_deref else log (call_to (codes "cuCtxSetCurrent") (d ∷ []) []))
      else pure tt

  unfoldable pub tensor_of_view : Ptr → ℕ → Ptr → M Ptr
  unfolding copy_dims
  tensor_of_view view type device = do
    size ← ask (λ t. api.view_byte_length t view)
    shape_rank ← ask (λ t. api.view_shape_rank t view)
    hal_dims ← ask (λ t. api.view_shape_dims t view)
    dims ← copy_dims shape_rank hal_dims
    new_tensor (record {
      data_ptr = null;
      size = size;
      dims = dims;
      elem_type = type;
      buffer_view = view;
      device = some device;
    })

  -- `src` holds the bytes that can be read behind the pointer `data`.
  unfoldable pub tensor_of_data : List Cell → ℕ → List ℤ → ℕ → M Ptr
  tensor_of_data src size in_dims type = do
    p ← malloc api.can_alloc size
    (bytes, _) ← split_at size src
    store p bytes
    new_tensor (record {
      data_ptr = p;
      size = size;
      dims = map to_u64 in_dims;
      elem_type = type;
      buffer_view = null;
      device = none;
    })

  -- `dims.resize(n)`, which throws where the vector would be too long.
  unfoldable pub resize_dims : ℕ → M (Unit {0})
  resize_dims n = do
    granted ← ask (λ t. api.can_alloc t (n * 8))
    log (host_alloc (n * 8))
    if ltb n (2 ^ 60) && granted then pure tt else stop_with bad_alloc

  -- `IREETensor(char *buffer)`, with the bytes that can be read behind `buffer`.
  unfoldable pub deserialize : List Cell → M Ptr
  unfolding resize_dims
  deserialize buffer = do
    (type_bytes, at_size) ← split_at 4 buffer
    type ← determined (le_value type_bytes)
    (size_bytes, at_data) ← split_at 8 at_size
    size ← determined (le_value size_bytes)
    p ← operator_new api.can_alloc size
    (data_bytes, at_rank) ← split_at size at_data
    store p data_bytes
    (rank_bytes, at_dims) ← split_at 8 at_rank
    num_dims ← determined (le_value rank_bytes)
    resize_dims num_dims
    (dims_bytes, _) ← split_at (num_dims * 8) at_dims
    dims ← determined (le_values num_dims dims_bytes)
    new_tensor (record {
      data_ptr = p;
      size = size;
      dims = dims;
      elem_type = type;
      buffer_view = null;
      device = none;
    })

  -- The copy to the host writes what the library answers, at most `n` bytes, at `output`.
  unfoldable pub transfer_d2h : Ptr → Ptr → Ptr → ℕ → M Status
  transfer_d2h device buffer output n = do
    answer ← ask (λ t. api.transfer_d2h t device buffer n)
    log (call_to (codes "iree_hal_device_transfer_d2h") (device ∷ buffer ∷ n ∷ []) [])
    store output (map some (take n answer.1))
    pure answer.0

  unfoldable pub read_buffer : Option Ptr → Ptr → Ptr → ℕ → M Status
  unfolding transfer_d2h run_if_cuda_enabled
  read_buffer device view output num_bytes = if view == null then pure ok_status else do
    buffer ← ask (λ t. api.view_buffer t view)
    length_of_buffer ← ask (λ t. api.buffer_byte_length t buffer)
    let num_bytes_actual = if num_bytes == size_max then length_of_buffer else num_bytes
    d ← determined device
    device_id ← ask (λ t. api.device_id t d)
    run_if_cuda_enabled (contains device_id (codes "cuda")) (some d)
    transfer_d2h d buffer output num_bytes_actual

  -- The host copy that `serialize` needs, and whether it could be made.
  unfoldable pub fetch_data : Ptr → M Bool
  unfolding read_buffer
  fetch_data this = do
    t ← get_tensor this
    p ← malloc api.can_alloc t.size
    set_tensor this (record t { data_ptr = p })
    if p == null
        then pure false
        else do status ← read_buffer t.device t.buffer_view p t.size; pure (status == ok_status)

  -- `none` is the null pointer.
  unfoldable pub serialize : Ptr → M (Option (List Cell))
  unfolding fetch_data wire
  serialize this = do
    t ← get_tensor this
    ready ← (if t.data_ptr == null then fetch_data this else pure true)
    if ready
        then (do u ← get_tensor this; bytes ← load u.data_ptr u.size; pure (some (wire u bytes)))
        else pure none
