-- ===== src/Ownership/Returned.antt =====
-- A JavaScript array that was made a tensor (the constructor of cmake/src/emscripten_api.cc), given back
-- by `iree_tensor_to_flat_js_array` after any calls of the module.
use nx_iree.Base.{
  ℕ, suc, ◌*◌, ◌/◌, ◌≡◌, ◌≢◌, refl, some, List, true, Text, length, arith, Option-cases, inl, inr,
}
use nx_iree.Machine.{Ptr, null, Cell, Device, Tensor, World, ok}
use nx_iree.Machine.Memory.{get_tensor}
use nx_iree.Machine.Laws.{load-all}
use nx_iree.Api.{Api}
use nx_iree.Types.{nx_type_to_iree_type}
use nx_iree.Browser.{Browser}
use nx_iree.Emscripten.Values.{tensor_of_js, to_flat_array, array_of}
use nx_iree.Emscripten.Arrays.{js_tensor, with_js, tensor_of_js-ok}
use nx_iree.Ownership.Store.{store_of}
use nx_iree.Ownership.Sessions.{tensor_created, perform_action, Session}
use nx_iree.Ownership.Leaving.{Persists}
use nx_iree.Ownership.Browsing.{Sparing, Sparing-Persists}

-- A tensor with `cells` as its host copy.
pub record IsCopied (type : ℕ) (cells : List Cell) (p : Ptr) (w : World) : Type 0 where
  copied : Tensor
  here : w.tensors p ≡ some copied
  typed : copied.elem_type ≡ type
  sized : copied.size ≡ length cells
  real : copied.data_ptr ≢ null
  held : w.blocks copied.data_ptr ≡ some cells

-- A tensor that persists still has its copy.
pub Persists-IsCopied :
    (p : Ptr) (t : Tensor) (cells : List Cell) (w : World)
    → t.size ≡ length cells
    → Persists
        (record { members = record t { data_ptr = null }; bytes = some cells })
        (store_of w p)
    → IsCopied t.elem_type cells p w
Persists-IsCopied p t cells w len (d, found, members, kept) =
    let held = kept (λ x. cc) in
    elim (Option-cases (w.tensors p)) [
      | inl gone ↦ absurd (ground (arith, found))
      | inr (u, here) ↦ record {
        copied = u;
        here = here;
        typed = ground (arith, found, members);
        sized = ground (arith, found, members, len);
        real = ground (arith, found, held);
        held = ground (arith, found, held);
      }
    ]

module _ (api : Api) (b : Browser) where
  pub to_flat_array-IsCopied :
      (type : ℕ) (cells : List Cell) (p : Ptr) (c : Text) (width : ℕ) (w : World)
      → IsCopied type cells p w
      → array_of type ≡ some (c, width)
      → length cells / width * width ≡ length cells
      → to_flat_array api b p w ≡ ok (record { constructor = c; bytes = cells }) w
  unfolding to_flat_array get_tensor
  to_flat_array-IsCopied type cells p c width w s known whole = ground (
    arith,
    s.here,
    s.typed,
    s.sized,
    s.real,
    load-all s.copied.data_ptr (length cells) cells w s.real s.held refl,
  )

  module _ (v dims : b.Val) (name : Text) (device : Ptr) (o : Device) (w : World) where
    with_js-Session :
        (c : Text) (width : ℕ)
        → Session api b w
        → api.can_alloc w.trace (b.byte_length v) ≡ true
        → w.devices device ≡ some o
        → array_of (nx_type_to_iree_type name) ≡ some (c, width)
        → length (b.converted (nx_type_to_iree_type name) v) ≡ b.byte_length v
        → Session api b (with_js api b v dims name device o w)
    unfolding perform_action
    with_js-Session c width s granted at known len =
        Session.next (tensor_created v dims name device) s
          (rw (tensor_of_js-ok api b v dims name device o w c width granted at known len) refl)

    -- In every state of a session of the browser, for a type that has typed arrays, an array of
    -- whole elements that is converted to as many bytes as it has makes a tensor, if memory is
    -- granted and the device object exists; and after any further actions that do not
    -- deallocate this tensor or let it go, also such as end by an exception, `toFlatArray` of
    -- it answers with a typed array of the type with these bytes.
    pub Session-flat_array :
        (c : Text) (width : ℕ) (u : World)
        → Session api b w
        → api.can_alloc w.trace (b.byte_length v) ≡ true
        → w.devices device ≡ some o
        → array_of (nx_type_to_iree_type name) ≡ some (c, width)
        → b.byte_length v / width * width ≡ b.byte_length v
        → length (b.converted (nx_type_to_iree_type name) v) ≡ b.byte_length v
        → Sparing api b (suc (suc w.last)) (with_js api b v dims name device o w) u
        → (tensor_of_js api b v dims name device w
            ≡ ok (suc (suc w.last)) (with_js api b v dims name device o w))
          × (to_flat_array api b (suc (suc w.last)) u
              ≡ ok
                  (record { constructor = c; bytes = b.converted (nx_type_to_iree_type name) v })
                  u)
    Session-flat_array c width u s granted at known whole len spared =
        let p = suc (suc w.last) in
        let there =
          Sparing-Persists api b p (with_js api b v dims name device o w) u _
            (with_js-Session c width s granted at known len) spared (ground arith) in
        (
          tensor_of_js-ok api b v dims name device o w c width granted at known len,
          to_flat_array-IsCopied _ _ p c width u
              (Persists-IsCopied p (js_tensor api b v dims name device o w)
                (b.converted (nx_type_to_iree_type name) v) u (ground (arith, len)) there)
              known (ground (arith, whole, len)),
        )
