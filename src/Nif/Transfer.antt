-- ===== src/Nif/Transfer.antt =====
-- Data through the handlers on tensors: what Elixir puts in is what it gets back.
use nx_iree.Base.{
  ℕ, suc, ◌^◌, ◌<◌, ◌≡◌, refl, ◌≢◌, none, some, List, [], ◌∷◌, map, Text, length, length-map,
  replicate, length-replicate, arith,
}
use nx_iree.Base.Int.{ℤ, negsuc, to_i64, to_u64}
use nx_iree.Machine.{Ptr, null, Cell, Tensor, World, ok, update, host_alloc}
use nx_iree.Machine.Memory.{get_tensor, new_tensor}
use nx_iree.Machine.Laws.{with_block, malloc-ok, store-ok, split_at-all, load-all}
use nx_iree.Api.{Api}
use nx_iree.Types.{type_none, nx_type_to_iree_type}
use nx_iree.Tensor.{tensor_of_data}
use nx_iree.Tensor.RoundTrip.{Allocates}
use nx_iree.Erlang.{Env, hal_device, tensor}
use nx_iree.Nif.Terms.{argument, ok_term, get_list, get_string}
use nx_iree.Nif.Tensors.{allocate_buffer, read_buffer_nif, requested, read_into}

-- The arguments of `allocate_buffer` that can be read.
pub record Arguments (e : Env) (a0 a1 a2 a3 : e.Term) (bytes : List ℕ) (device : Ptr)
    (dims : List ℤ) (name : Text) : Type 0 where
  pub data_read : e.inspect_binary a0 ≡ some bytes
  pub device_read : e.get_resource hal_device a1 ≡ some device
  pub dims_read : get_list e e.get_int64 a2 ≡ some dims
  pub name_read : get_string e a3 ≡ some name

-- The tensor object that holds a copy of a binary.
abbrev pub host_tensor : Ptr → List ℕ → List ℤ → ℕ → Tensor
host_tensor p bytes dims type = record {
  data_ptr = p;
  size = length bytes;
  dims = map to_u64 dims;
  elem_type = type;
  buffer_view = null;
  device = none;
}

abbrev pub blank : List ℕ → List Cell
blank bytes = replicate (length bytes) none

-- The state after the binary was copied and the tensor object made.
abbrev pub holding : List ℕ → List ℤ → ℕ → World → World
holding bytes dims type w = record w {
  last = suc (suc w.last);
  trace = host_alloc (length bytes) ∷ w.trace;
  blocks =
      update (update w.blocks (suc w.last) (some (replicate (length bytes) none))) (suc w.last)
        (some (map some bytes));
  tensors = update w.tensors (suc (suc w.last)) (some (host_tensor (suc w.last) bytes dims type));
}

pub tensor_of_data-holding :
    (api : Api) (bytes : List ℕ) (dims : List ℤ) (type : ℕ) (w : World)
    → Allocates api
    → tensor_of_data api (map some bytes) (length bytes) dims type w
      ≡ ok (suc (suc w.last)) (holding bytes dims type w)
unfolding tensor_of_data new_tensor
tensor_of_data-holding api bytes dims type w granted = rw (
  malloc-ok api.can_alloc (length bytes) w (granted _ _),
  split_at-all (map some bytes) (length bytes) (with_block w (length bytes) (blank bytes))
      (length-map some bytes),
  store-ok (suc w.last) (map some bytes) (blank bytes) (with_block w (length bytes) (blank bytes))
      (ground arith) (ground arith)
      (omega (arith, length-map some bytes, length-replicate {0} {A = Cell} (length bytes) none)),
)

-- The state after the new binary was filled.
abbrev pub copied_out : List ℕ → World → World
copied_out bytes w = record (with_block w (length bytes) (blank bytes)) {
  blocks =
      update (update w.blocks (suc w.last) (some (blank bytes))) (suc w.last)
        (some (map some bytes));
}

module _ (api : Api) (e : Env) where
  pub allocate_buffer-holding :
      (a0 a1 a2 a3 : e.Term) (bytes : List ℕ) (device : Ptr) (dims : List ℤ) (name : Text)
      (w : World)
      → Allocates api
      → Arguments e a0 a1 a2 a3 bytes device dims name
      → nx_type_to_iree_type name ≢ type_none
      → allocate_buffer api e (a0 ∷ a1 ∷ a2 ∷ a3 ∷ []) w
        ≡ ok
            (ok_term e (e.make_resource tensor (suc (suc w.last))))
            (holding bytes dims (nx_type_to_iree_type name) w)
  unfolding argument allocate_buffer
  allocate_buffer-holding a0 a1 a2 a3 bytes device dims name w granted a known =
      ground (arith, tensor_of_data-holding api bytes dims (nx_type_to_iree_type name) w granted)

  pub read_into-host :
      (device : Ptr) (t : Tensor) (bytes : List ℕ) (w : World)
      → t.buffer_view ≡ null
      → t.data_ptr ≢ null
      → t.data_ptr ≢ suc w.last
      → w.blocks t.data_ptr ≡ some (map some bytes)
      → read_into api e device t
          (suc w.last)
          (length bytes)
          (with_block w (length bytes) (blank bytes))
        ≡ ok (ok_term e (e.make_binary (map some bytes))) (copied_out bytes w)
  unfolding read_into
  read_into-host device t bytes w nv nd fresh hb = ground (
    arith,
    length-map some bytes,
    length-replicate {0} {A = Cell} (length bytes) none,
    load-all t.data_ptr (length bytes) (map some bytes) (with_block w (length bytes) (blank bytes)),
    store-ok (suc w.last) (map some bytes) (blank bytes)
        (with_block w (length bytes) (blank bytes)),
    load-all (suc w.last) (length bytes) (map some bytes) (copied_out bytes w),
  )

  whole_size :
      (p : Ptr) (bytes : List ℕ) (dims : List ℤ) (type : ℕ)
      → length bytes < 2 ^ 64
      → to_u64 (requested api e (negsuc 0) (host_tensor p bytes dims type)) ≡ length bytes
  unfolding requested to_u64 to_i64
  whole_size p bytes dims type small = ground arith

  read_into-holding :
      (device : Ptr) (bytes : List ℕ) (dims : List ℤ) (type : ℕ) (w : World)
      → read_into api e device
          (host_tensor (suc w.last) bytes dims type)
          (suc (suc (suc w.last)))
          (length bytes)
          (with_block (holding bytes dims type w) (length bytes) (blank bytes))
        ≡ ok
            (ok_term e (e.make_binary (map some bytes)))
            (copied_out bytes (holding bytes dims type w))
  read_into-holding device bytes dims type w =
      read_into-host device (host_tensor (suc w.last) bytes dims type) bytes
        (holding bytes dims type w) refl (ground arith) (ground arith) (ground arith)

  -- A read of a tensor's whole data with `-1`, in the state that `allocate_buffer` left, answers
  -- with the binary that was put in.
  pub read_buffer_nif-holding :
      (a0 a1 a2 : e.Term) (device : Ptr) (bytes : List ℕ) (dims : List ℤ) (type : ℕ) (w : World)
      → Allocates api
      → length bytes < 2 ^ 64
      → e.get_resource hal_device a0 ≡ some device
      → e.get_resource tensor a1 ≡ some (suc (suc w.last))
      → e.get_int64 a2 ≡ some (negsuc 0)
      → read_buffer_nif api e a0 a1 a2 (holding bytes dims type w)
        ≡ ok
            (ok_term e (e.make_binary (map some bytes)))
            (copied_out bytes (holding bytes dims type w))
  unfolding argument read_buffer_nif get_tensor
  read_buffer_nif-holding a0 a1 a2 device bytes dims type w granted small h0 h1 h2 = ground (
    arith,
    malloc-ok api.can_alloc (length bytes) (holding bytes dims type w) (granted _ _),
    whole_size (suc w.last) bytes dims type small,
    read_into-holding device bytes dims type w,
  )

  -- Where memory is granted and the arguments can be read, `allocate_buffer` answers with a new
  -- tensor, and `read_buffer` of that tensor with -1 answers with the bytes it was made of, if
  -- they are fewer than 2 ^ 64.
  pub read_buffer_nif-allocate_buffer :
      (a0 a1 a2 a3 b0 b1 b2 : e.Term) (bytes : List ℕ) (device reader : Ptr) (dims : List ℤ)
      (name : Text) (w : World)
      → Allocates api
      → Arguments e a0 a1 a2 a3 bytes device dims name
      → nx_type_to_iree_type name ≢ type_none
      → length bytes < 2 ^ 64
      → e.get_resource hal_device b0 ≡ some reader
      → e.get_resource tensor b1 ≡ some (suc (suc w.last))
      → e.get_int64 b2 ≡ some (negsuc 0)
      → (allocate_buffer api e (a0 ∷ a1 ∷ a2 ∷ a3 ∷ []) w
          ≡ ok
              (ok_term e (e.make_resource tensor (suc (suc w.last))))
              (holding bytes dims (nx_type_to_iree_type name) w))
        × (read_buffer_nif api e b0 b1 b2 (holding bytes dims (nx_type_to_iree_type name) w)
            ≡ ok
                (ok_term e (e.make_binary (map some bytes)))
                (copied_out bytes (holding bytes dims (nx_type_to_iree_type name) w)))
  read_buffer_nif-allocate_buffer a0 a1 a2 a3 b0 b1 b2 bytes device reader dims name w g a known
        small h0 h1 h2 =
      (
        allocate_buffer-holding a0 a1 a2 a3 bytes device dims name w g a known,
        read_buffer_nif-holding b0 b1 b2 reader bytes dims (nx_type_to_iree_type name) w g small h0
            h1 h2,
      )
