-- ===== src/Nif/Faults.antt =====
-- What the handlers on tensors do with arguments and tensors they cannot use.
use nx_iree.Base.{ℕ, suc, ◌^◌, ◌<◌, ◌≡◌, ◌≢◌, some, List, [], ◌∷◌, true, false, length, arith}
use nx_iree.Base.Int.{ℤ, pos, negsuc, to_i64, to_u64}
use nx_iree.Machine.{Ptr, null, Cell, Tensor, World, fault, null_deref, out_of_bounds}
use nx_iree.Machine.Memory.{get_tensor, set_tensor, malloc, load}
use nx_iree.Machine.Laws.{malloc-ok}
use nx_iree.Api.{Api}
use nx_iree.Tensor.{serialize, fetch_data}
use nx_iree.Erlang.{Env, hal_device, tensor}
use nx_iree.Nif.Terms.{argument}
use nx_iree.Nif.Tensors.{read_buffer_nif, serialize_tensor, requested, read_into}

-- The arguments of `read_buffer` that can be read.
pub record ReadArguments (e : Env) (a0 a1 a2 : e.Term) (device input : Ptr) (num_bytes : ℤ)
    : Type 0 where
  pub device_read : e.get_resource hal_device a0 ≡ some device
  pub input_read : e.get_resource tensor a1 ≡ some input
  pub num_bytes_read : e.get_int64 a2 ≡ some num_bytes

module _ (api : Api) (e : Env) where
  -- `read_buffer` with -1 on a tensor with neither host copy nor view, as `deallocate_buffer`
  -- leaves it, copies from the null pointer, if the tensor's size is neither zero nor over 64
  -- bits and memory is granted.
  pub read_buffer_nif-empty :
      (a0 a1 a2 : e.Term) (device p : Ptr) (t : Tensor) (v : World)
      → ReadArguments e a0 a1 a2 device p (negsuc 0)
      → v.tensors p ≡ some t
      → t.data_ptr ≡ null
      → t.buffer_view ≡ null
      → 0 < t.size
      → t.size < 2 ^ 64
      → api.can_alloc v.trace t.size ≡ true
      → read_buffer_nif api e a0 a1 a2 v ≡ fault null_deref
  unfolding argument read_buffer_nif read_into get_tensor requested to_i64 to_u64 load
  read_buffer_nif-empty a0 a1 a2 device p t v a here nd nv some_bytes small granted = ground (
    arith,
    a.device_read,
    a.input_read,
    a.num_bytes_read,
    malloc-ok api.can_alloc t.size v granted,
  )

  -- `read_buffer` with more bytes than a tensor's host copy has reads past its end, if memory
  -- is granted.
  pub read_buffer_nif-past_end :
      (a0 a1 a2 : e.Term) (device p n : ℕ) (t : Tensor) (b : List Cell) (v : World)
      → ReadArguments e a0 a1 a2 device p (pos n)
      → v.tensors p ≡ some t
      → t.buffer_view ≡ null
      → t.data_ptr ≢ null
      → t.data_ptr ≢ suc v.last
      → v.blocks t.data_ptr ≡ some b
      → length b < n
      → n < 2 ^ 63
      → api.can_alloc v.trace n ≡ true
      → read_buffer_nif api e a0 a1 a2 v ≡ fault out_of_bounds
  unfolding argument read_buffer_nif read_into get_tensor requested to_u64 load
  read_buffer_nif-past_end a0 a1 a2 device p n t b v a here nv nd fresh hb short small granted =
      ground
        (arith, a.device_read, a.input_read, a.num_bytes_read, malloc-ok api.can_alloc n v granted)

  -- `serialize_tensor` on a tensor without a host copy uses the null pointer, if the memory for
  -- one is refused.
  pub serialize_tensor-refused :
      (a0 : e.Term) (p : Ptr) (t : Tensor) (v : World)
      → e.get_resource tensor a0 ≡ some p
      → v.tensors p ≡ some t
      → t.data_ptr ≡ null
      → api.can_alloc v.trace t.size ≡ false
      → serialize_tensor api e (a0 ∷ []) v ≡ fault null_deref
  unfolding argument serialize_tensor serialize fetch_data get_tensor set_tensor malloc
  serialize_tensor-refused a0 p t v h here nd refused = ground arith
