-- ===== src/Tensor/Lifetime.antt =====
-- What `deallocate` and the destructor leave behind.
use nx_iree.Base.{
  ◌≡◌, refl, ◌⊎◌, none, some, List, ◌∷◌, true, replicate, arith, ◌==◌, suc, if◌then◌else◌,
}
use nx_iree.Machine.{Ptr, null, Cell, Tensor, World, release, view_kind, ok, update}
use nx_iree.Machine.Laws.{with_block, malloc-ok, whole_block}
use nx_iree.Machine.Memory.{free, get_tensor, set_tensor, free_tensor}
use nx_iree.Api.{Api}
use nx_iree.Tensor.{deallocate, delete_tensor, serialize, wire, read_buffer}

-- The tensor object at `p` is `t`, and its host copy, if it has one, is allocated.
pub record Holds (p : Ptr) (t : Tensor) (w : World) : Type 0 where
  pub here : w.tensors p ≡ some t
  pub allocated : (t.data_ptr ≡ null) ⊎ ((b : List Cell) × (w.blocks t.data_ptr ≡ some b))

abbrev pub emptied : Tensor → Tensor
emptied t = record t { data_ptr = null; buffer_view = null }

abbrev pub without_data : Ptr → Tensor → World → World
without_data p t w = if t.data_ptr == null then w else record w {
  blocks = update w.blocks t.data_ptr none;
  tensors = update w.tensors p (some (record t { data_ptr = null }));
}

-- The state after the tensor `t` at `p` was deallocated.
abbrev pub deallocated : Ptr → Tensor → World → World
deallocated p t w =
    if t.buffer_view == null then without_data p t w else record (without_data p t w) {
      tensors = update (without_data p t w).tensors p (some (emptied t));
      trace = release view_kind t.buffer_view ∷ w.trace;
    }

-- `deallocate` frees the host copy and drops the view, once each and only where there is one.
pub deallocate_lem :
    (p : Ptr) (t : Tensor) (w : World) → Holds p t w → deallocate p w ≡ ok tt (deallocated p t w)
unfolding deallocate free get_tensor set_tensor
deallocate_lem p t w h = ground arith

-- `delete` of a tensor whose host copy, if any, is allocated frees the copy, drops the view,
-- once each and only where there is one, and removes the object.
pub delete_tensor_lem :
    (p : Ptr) (t : Tensor) (w : World)
    → Holds p t w
    → delete_tensor p w
      ≡ ok tt (record (deallocated p t w) { tensors = update (deallocated p t w).tensors p none })
unfolding delete_tensor free_tensor
delete_tensor_lem p t w h = rw (deallocate_lem p t w h)

-- After `deallocate` of a tensor whose host copy, if any, is allocated, the tensor has neither
-- host copy nor view, and deallocating it again changes nothing.
pub deallocate_twice :
    (p : Ptr) (t : Tensor) (w v : World)
    → Holds p t w
    → deallocate p w ≡ ok tt v
    → (v.tensors p ≡ some (emptied t)) × (deallocate p v ≡ ok tt v)
unfolding deallocate free get_tensor set_tensor
deallocate_twice p t w v h e = ground (arith, deallocate_lem p t w h)

-- The state after `malloc` gave the tensor `t` at `p` a host copy that holds `b`.
abbrev pub with_copy : Ptr → Tensor → List Cell → World → World
with_copy p t b v = record (with_block v t.size b) {
  tensors = update v.tensors p (some (record t { data_ptr = suc v.last }));
}

-- A tensor with neither host copy nor view is serialised from memory that nobody wrote.
pub serialize-empty :
    (api : Api) (p : Ptr) (t : Tensor) (v : World)
    → v.tensors p ≡ some t
    → t.data_ptr ≡ null
    → t.buffer_view ≡ null
    → api.can_alloc v.trace t.size ≡ true
    → serialize api p v
      ≡ ok (some (wire t (replicate t.size none))) (with_copy p t (replicate t.size none) v)
unfolding serialize get_tensor set_tensor wire read_buffer
serialize-empty api p t v here nd nv granted = ground (
  arith,
  malloc-ok api.can_alloc t.size v granted,
  whole_block (suc v.last) t.size (with_copy p t (replicate t.size none) v),
)

-- `serialize` after `deallocate` reports success and sends `size` bytes that nobody wrote, if
-- the memory is granted.
pub serialize-deallocate :
    (api : Api) (p : Ptr) (t : Tensor) (w v : World)
    → Holds p t w
    → deallocate p w ≡ ok tt v
    → api.can_alloc v.trace t.size ≡ true
    → serialize api p v
      ≡ ok
          (some (wire t (replicate t.size none)))
          (with_copy p (emptied t) (replicate t.size none) v)
unfolding wire
serialize-deallocate api p t w v h e granted =
    serialize-empty api p (emptied t) v (deallocate_twice p t w v h e).0 refl refl granted
