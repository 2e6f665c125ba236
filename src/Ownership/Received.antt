-- ===== src/Ownership/Received.antt =====
-- What `deserialize` adds to the store.
use nx_iree.Base.{suc, ◌≡◌, none, some, List, ◌++◌, length, ap, subst, arith}
use mathlib.Core.Option
use nx_iree.Machine.{Ptr, null, Cell, Tensor, World, ok}
use nx_iree.Api.{Api}
use nx_iree.Tensor.{deserialize, wire}
use nx_iree.Tensor.RoundTrip.{IsTensor, Allocates, restored, deserialize-wire}
use nx_iree.Ownership.Heap.{Owned}
use nx_iree.Ownership.Store.{content, store_of, Becomes, only_here}

-- A tensor as it comes over the wire: without its pointer, its view and its device.
abbrev pub received : Tensor → Tensor
received t = record t { data_ptr = null; buffer_view = null; device = none }

pub deserialize-Becomes :
    (api : Api) (t : Tensor) (bytes rest : List Cell) (w : World)
    → Owned w
    → Allocates api
    → IsTensor t
    → length bytes ≡ t.size
    → (p : Ptr) × (v : World) × (deserialize api (wire t bytes ++ rest) w ≡ ok p v)
      × (store_of w p ≡ none)
      × Becomes
          (store_of w)
          p
          (some (record { members = received t; bytes = some bytes }))
          (store_of v)
deserialize-Becomes api t bytes rest w h granted fits len = (
  suc (suc w.last),
  restored t bytes w,
  deserialize-wire api t bytes rest w granted fits len,
  ap (Option.map (content w.blocks)) (h.fresh_tensor (suc (suc w.last)) (omega arith)),
  subst (λ c. Becomes (store_of w) (suc (suc w.last)) c (store_of (restored t bytes w)))
      (ground arith)
      (only_here (suc (suc w.last)) w (restored t bytes w) (λ q ne. ground arith)
        λ q u there ne nn. ground (arith, h.held q u there, h.fresh_block (suc w.last))),
)
