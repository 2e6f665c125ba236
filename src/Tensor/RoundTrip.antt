-- ===== src/Tensor/RoundTrip.antt =====
-- `serialize` and `IREETensor(char *)` undo one another.
use nx_iree.Base.{
  ℕ, suc, ◌*◌, ◌^◌, ◌≤◌, ◌<◌, ◌≡◌, ◌≢◌, none, some, List, ◌∷◌, ◌++◌, true, length, take, arith,
  append_assoc, length-take_of_le, replicate, length-replicate,
}
use nx_iree.Machine.{Ptr, null, Cell, Tensor, World, host_alloc, Trace, ok, update}
use nx_iree.Machine.Memory.{get_tensor, new_tensor, determined}
use nx_iree.Machine.Laws.{split_at-append, load-ok, store-ok, operator_new-ok, with_block}
use nx_iree.Api.{Api}
use nx_iree.Tensor.Bytes.{
  le_bytes, le_words, length-le_bytes, length-le_words, le_value-le_bytes, le_values-le_words,
  AllU64,
}
use nx_iree.Tensor.{wire, serialize, deserialize, resize_dims}

-- The members of a tensor fit their fields: a 32-bit type, and 64-bit sizes.
pub record IsTensor (t : Tensor) : Type 0 where
  pub type_fits : t.elem_type < 2 ^ 32
  pub size_fits : t.size < 2 ^ 64
  pub dims_fit : AllU64 t.dims
  pub rank_fits : length t.dims < 2 ^ 60

-- Every allocation succeeds.
abbrev pub Allocates : Api → Type 0
Allocates api = (t : Trace) (n : ℕ) → api.can_alloc t n ≡ true

-- The tensor that is read back, and the state with it: a host copy of its own, and no view.
abbrev pub restored_tensor : Tensor → World → Tensor
restored_tensor t w = record t { data_ptr = suc w.last; buffer_view = null; device = none }

abbrev pub restored : Tensor → List Cell → World → World
restored t bytes w = record w {
  last = suc (suc w.last);
  trace = host_alloc (length t.dims * 8) ∷ host_alloc t.size ∷ w.trace;
  blocks =
      update (update w.blocks (suc w.last) (some (replicate t.size none))) (suc w.last)
        (some bytes);
  tensors = update w.tensors (suc (suc w.last)) (some (restored_tensor t w));
}

-- A tensor with a host copy is serialised from it, and nothing changes.
pub serialize-host :
    (api : Api) (p : Ptr) (t : Tensor) (b : List Cell) (w : World)
    → w.tensors p ≡ some t
    → t.data_ptr ≢ null
    → w.blocks t.data_ptr ≡ some b
    → t.size ≤ length b
    → serialize api p w ≡ ok (some (wire t (take t.size b))) w
unfolding serialize get_tensor
serialize-host api p t b w here ne hb le = ground (arith, load-ok t.data_ptr t.size b w)

pub resize_dims-ok :
    (api : Api) (n : ℕ) (w : World)
    → Allocates api
    → n < 2 ^ 60
    → resize_dims api n w ≡ ok tt (record w { trace = host_alloc (n * 8) ∷ w.trace })
unfolding resize_dims
resize_dims-ok api n w granted h = ground (arith, granted w.trace (n * 8))

pub wire-append :
    (t : Tensor) (bytes rest : List Cell)
    → wire t bytes ++ rest
      ≡ le_bytes 4 t.elem_type
        ++ (le_bytes 8 t.size
            ++ (bytes ++ (le_bytes 8 (length t.dims) ++ (le_words t.dims ++ rest))))
unfolding wire
wire-append t bytes rest = simp append_assoc

-- Whatever `serialize` writes is read back in one piece, and what follows it is not looked at.
pub deserialize-wire :
    (api : Api) (t : Tensor) (bytes rest : List Cell) (w : World)
    → Allocates api
    → IsTensor t
    → length bytes ≡ t.size
    → deserialize api (wire t bytes ++ rest) w ≡ ok (suc (suc w.last)) (restored t bytes w)
unfolding deserialize new_tensor determined
deserialize-wire api t bytes rest w granted v len = rw (
  wire-append t bytes rest,
  split_at-append (le_bytes 4 t.elem_type) _ 4 w (length-le_bytes 4 t.elem_type),
  le_value-le_bytes 4 t.elem_type v.type_fits,
  split_at-append (le_bytes 8 t.size) _ 8 w (length-le_bytes 8 t.size),
  le_value-le_bytes 8 t.size v.size_fits,
  operator_new-ok api.can_alloc t.size w (granted _ _),
  split_at-append bytes _ t.size _ len,
  store-ok (suc w.last) bytes (replicate t.size none) (with_block w t.size (replicate t.size none))
      (ground arith) (ground arith)
      (omega (arith, len, length-replicate {0} {A = Cell} t.size none)),
  split_at-append (le_bytes 8 (length t.dims)) _ 8 _ (length-le_bytes 8 (length t.dims)),
  le_value-le_bytes 8 (length t.dims) (omega (arith, v.rank_fits)),
  resize_dims-ok api (length t.dims) _ granted v.rank_fits,
  split_at-append (le_words t.dims) rest (length t.dims * 8) _
      (omega (arith, length-le_words t.dims)),
  le_values-le_words t.dims v.dims_fit,
)

-- A tensor whose members fit their fields, with a host copy of at least `size` bytes, goes over
-- the wire unchanged: where memory is granted, `serialize` changes nothing, and the bytes it
-- returns, with any others behind them, are read back in any state as a tensor of the same
-- type, size and dimensions with a copy of the same data.
pub deserialize-serialize :
    (api : Api) (p : Ptr) (t : Tensor) (b rest : List Cell) (w v : World)
    → Allocates api
    → IsTensor t
    → w.tensors p ≡ some t
    → t.data_ptr ≢ null
    → w.blocks t.data_ptr ≡ some b
    → t.size ≤ length b
    → (s : List Cell) × (serialize api p w ≡ ok (some s) w)
      × (deserialize api (s ++ rest) v ≡ ok (suc (suc v.last)) (restored t (take t.size b) v))
deserialize-serialize api p t b rest w v granted h here ne hb le = (
  wire t (take t.size b),
  serialize-host api p t b w here ne hb le,
  deserialize-wire api t (take t.size b) rest v granted h (length-take_of_le t.size b le),
)
