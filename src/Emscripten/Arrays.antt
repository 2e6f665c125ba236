-- ===== src/Emscripten/Arrays.antt =====
-- Typed arrays through the tensor constructor and `iree_tensor_to_flat_js_array`.
use nx_iree.Base.{
  ℕ, suc, ◌*◌, ◌/◌, ◌<◌, ◌≡◌, ◌≢◌, none, some, List, ◌∷◌, map, true, Text, length, replicate,
  length-replicate, arith,
}
use nx_iree.Base.Int.{to_u64}
use nx_iree.Machine.{
  Ptr, null, Cell, Device, Tensor, World, ok, fault, out_of_bounds, host_alloc, update,
}
use nx_iree.Machine.Memory.{split_at, new_tensor, get_tensor, get_device}
use nx_iree.Machine.Laws.{with_block, malloc-ok, store-ok, split_at-all, load-all}
use nx_iree.Api.{Api}
use nx_iree.Types.{type_none, nx_type_to_iree_type}
use nx_iree.Browser.{Browser}
use nx_iree.Emscripten.Values.{tensor_of_js, to_flat_array, array_of, is_supported}

supported :
    (type : ℕ) (c : Text) (width : ℕ)
    → array_of type ≡ some (c, width)
    → (is_supported type ≡ true) × (type ≢ type_none)
unfolding array_of is_supported
supported type c width h = ground arith

module _ (api : Api) (b : Browser) (v dims : b.Val) (name : Text) (device : Ptr) (o : Device)
    (w : World) where
  abbrev pub size : ℕ
  size = b.byte_length v

  abbrev pub cells : List Cell
  cells = b.converted (nx_type_to_iree_type name) v

  abbrev pub js_tensor : Tensor
  js_tensor = record {
    data_ptr = suc w.last;
    size = size;
    dims = map to_u64 (b.numbers dims);
    elem_type = nx_type_to_iree_type name;
    buffer_view = null;
    device = o.ref;
  }

  -- The state with the new tensor.
  abbrev pub with_js : World
  with_js = record w {
    last = suc (suc w.last);
    trace = host_alloc size ∷ w.trace;
    blocks =
        update (update w.blocks (suc w.last) (some (replicate size none))) (suc w.last)
          (some cells);
    tensors = update w.tensors (suc (suc w.last)) (some js_tensor);
  }

  pub tensor_of_js-ok :
      (c : Text) (width : ℕ)
      → api.can_alloc w.trace size ≡ true
      → w.devices device ≡ some o
      → array_of (nx_type_to_iree_type name) ≡ some (c, width)
      → length cells ≡ size
      → tensor_of_js api b v dims name device w ≡ ok (suc (suc w.last)) with_js
  unfolding tensor_of_js new_tensor get_device
  tensor_of_js-ok c width granted at known len = ground (
    arith,
    malloc-ok api.can_alloc size w granted,
    supported (nx_type_to_iree_type name) c width known,
    split_at-all cells size (with_block w size (replicate size none)) len,
    store-ok (suc w.last) cells (replicate size none) (with_block w size (replicate size none))
        (ground arith) (ground arith)
        (omega (arith, len, length-replicate {0} {A = Cell} size none)),
  )

  to_flat_array-ok :
      (c : Text) (width : ℕ)
      → array_of (nx_type_to_iree_type name) ≡ some (c, width)
      → size / width * width ≡ size
      → length cells ≡ size
      → to_flat_array api b (suc (suc w.last)) with_js
        ≡ ok (record { constructor = c; bytes = cells }) with_js
  unfolding to_flat_array get_tensor
  to_flat_array-ok c width known whole len =
      ground (arith, load-all (suc w.last) size cells with_js (ground arith) (ground arith) len)

  -- For a type that has typed arrays, an array of whole elements that is converted to as many
  -- bytes as it has makes a tensor, if memory is granted and the device object exists, and
  -- `toFlatArray` of it answers with a typed array of the type with these bytes.
  pub to_flat_array-tensor_of_js :
      (c : Text) (width : ℕ)
      → api.can_alloc w.trace size ≡ true
      → w.devices device ≡ some o
      → array_of (nx_type_to_iree_type name) ≡ some (c, width)
      → size / width * width ≡ size
      → length cells ≡ size
      → (tensor_of_js api b v dims name device w ≡ ok (suc (suc w.last)) with_js)
        × (to_flat_array api b (suc (suc w.last)) with_js
            ≡ ok (record { constructor = c; bytes = cells }) with_js)
  to_flat_array-tensor_of_js c width granted at known whole len =
      (tensor_of_js-ok c width granted at known len, to_flat_array-ok c width known whole len)

  -- An array that is converted to fewer bytes than it has is copied past the end of the
  -- conversion, for a type that has typed arrays and if memory is granted.
  pub tensor_of_js-short :
      (c : Text) (width : ℕ)
      → api.can_alloc w.trace size ≡ true
      → array_of (nx_type_to_iree_type name) ≡ some (c, width)
      → length cells < size
      → tensor_of_js api b v dims name device w ≡ fault out_of_bounds
  unfolding tensor_of_js split_at
  tensor_of_js-short c width granted known short = ground (
    arith,
    malloc-ok api.can_alloc size w granted,
    supported (nx_type_to_iree_type name) c width known,
  )
