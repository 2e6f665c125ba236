-- ===== src/Ownership/Arrays.antt =====
-- Arrays of the browser, its data buffers and tensors, for the invariant of host memory.
use nx_iree.Base.{ℕ, refl, Option, none, some, Text, Bool-cases, inl, inr, arith, ◌==◌}
use nx_iree.Machine.{Ptr, null, Tensor, World}
use nx_iree.Api.{Api}
use nx_iree.Browser.{Browser}
use nx_iree.Emscripten.Values.{
  tensor_of_js, fill_tensor, unsupported, data_buffer_of_js, get_data, fetch_flat, flat_array,
  to_flat_array,
}
use nx_iree.Ownership.Heap.{Owned}
use nx_iree.Ownership.Rules.{Run-bind, Kept, Keeps, Shape, Holds, stops, kept_rules}
use nx_iree.Ownership.Memory.{memory_rules, reading_rules}
use nx_iree.Ownership.Ready.{
  IsReady, Ready-bind, malloc-Ready, split_at-Ready, store-Ready, new_tensor-Ready,
}
use nx_iree.Ownership.Tensors.{read_buffer-Kept}
use nx_iree.Ownership.Devices.{get_status_message-Kept}
use nx_iree.Ownership.Buffers.{new_buffer-Ready, get_buffer-Kept, get_device-Ready}

module _ (api : Api) (b : Browser) where
  open b use {Val}

  pub unsupported-Kept :
      {J : Shape} {A : Type 0} (type : ℕ) (w : World)
      → Holds J w
      → Keeps J (unsupported api b {A = A} type w)
  unfolding unsupported
  unsupported-Kept type w h = stops h

  fill_tensor-Kept :
      (p n : ℕ) (input dims : Val) (type device : ℕ) (w : World)
      → IsReady p n w
      → Kept (fill_tensor api b p n input dims type device w)
  unfolding fill_tensor
  fill_tensor-Kept p n input dims type device w r =
      Ready-bind (split_at-Ready n (b.converted type input) w r) λ a v r.
        Ready-bind (store-Ready a.0 v r) λ _ v r.
          Ready-bind (get_device-Ready device v r) λ d v r. new_tensor-Ready _ v r refl refl refl

  pub tensor_of_js-Kept :
      (input dims : Val) (type : Text) (device : Ptr) (w : World)
      → Owned w
      → Kept (tensor_of_js api b input dims type device w)
  unfolding tensor_of_js
  tensor_of_js-Kept input dims type device w h =
      Run-bind (malloc-Ready api.can_alloc (b.byte_length input) w h)
        λ p v r. let k = r.owned in search (kept_rules, unsupported-Kept, fill_tensor-Kept) depth 12

  pub data_buffer_of_js-Kept :
      (input : Val) (w : World) → Owned w → Kept (data_buffer_of_js api b input w)
  unfolding data_buffer_of_js
  data_buffer_of_js-Kept input w h =
      Run-bind (malloc-Ready api.can_alloc (b.byte_length input) w h) λ p v r.
        elim (Bool-cases (p == null)) [
          | inl e ↦ rw e (stops r.owned)
          | inr e ↦ rw e (
              Ready-bind (store-Ready (b.elements input) v r) λ _ u r.
                new_buffer-Ready (record { data_ptr = p; size = b.byte_length input }) u r
                  (ground arith))
        ]

  pub get_data-Kept : {J : Shape} (p : Ptr) (w : World) → Holds J w → Keeps J (get_data api b p w)
  unfolding get_data
  get_data-Kept p w h = search (reading_rules, get_buffer-Kept)

  fetch_flat-Kept : (t : Tensor) (w : World) → Owned w → Kept (fetch_flat api b t w)
  unfolding fetch_flat
  fetch_flat-Kept t w h = search (memory_rules, read_buffer-Kept, get_status_message-Kept) depth 12

  pub flat_array-Kept :
      {J : Shape} (t : Tensor) (a : Option (Text × ℕ)) (w : World)
      → Holds J w
      → Keeps J (flat_array api b t a w)
  unfolding flat_array
  flat_array-Kept t none w h = unsupported-Kept t.elem_type w h
  flat_array-Kept t (some a) w h = search reading_rules

  pub to_flat_array-Kept : (p : Ptr) (w : World) → Owned w → Kept (to_flat_array api b p w)
  unfolding to_flat_array
  to_flat_array-Kept p w h = search (memory_rules, fetch_flat-Kept, flat_array-Kept) depth 12
