-- ===== src/Ownership/Growing.antt =====
-- The constructors of `IREETensor`, `serialize` and `read_buffer` (cmake/src/runtime.cc) leave
-- the tensors that are there as they are, but for host copies that they lack.
use nx_iree.Base.{
  ℕ, ◌≡◌, ◌<◌, inl, inr, Option, some, List, Bool-cases, Option-cases, ap, ◌∙◌, arith, ◌==◌,
}
use nx_iree.Base.Int.{ℤ}
use nx_iree.Machine.{Ptr, null, Cell, Tensor, World, pure, ◌>>=◌}
use nx_iree.Machine.Memory.{get_tensor, set_tensor, new_tensor, load}
use nx_iree.Api.{Api}
use nx_iree.Tensor.{
  tensor_of_view, tensor_of_data, deserialize, transfer_d2h, read_buffer, fetch_data, serialize,
  resize_dims, wire,
}
use nx_iree.Ownership.Rules.{
  ends, faults, Run, Run-bind, Keeps, Shape, Holds, Kept-bind, kept_rules,
}
use nx_iree.Ownership.Memory.{reading_rules, split_at-Kept, determined-Kept}
use nx_iree.Ownership.Tensors.{copy_dims-Kept, run_if_cuda_enabled-Kept}
use nx_iree.Ownership.Growth.{
  IsGrown, Grown, Apart, malloc-Grown, operator_new-Grown, store-Grown, new_tensor-Grown,
  fill_tensor-Grown,
}

resize_dims-Kept :
    {J : Shape} (api : Api) (n : ℕ) (w : World) → Holds J w → Keeps J (resize_dims api n w)
unfolding resize_dims
resize_dims-Kept api n w h = search kept_rules depth 12

-- The end of `serialize`, once there is a host copy.
sending :
    {J : Shape} (this : Ptr) (w : World)
    → Holds J w
    → Keeps J
        ((do u ← get_tensor this; bytes ← load u.data_ptr u.size; pure (some (wire u bytes))) w)
sending this w h = search reading_rules depth 12

module _ {old : World} where
  -- A new tensor, as any object.
  pub add_tensor : (t : Tensor) (w : World) → Grown old w → Keeps (IsGrown old) (new_tensor t w)
  unfolding new_tensor
  add_tensor t w g = Run-bind {f = pure} (new_tensor-Grown t w g) λ p v k. ends k.0

module _ (api : Api) {old : World} where
  pub tensor_of_view-Grown :
      (view type device : ℕ) (w : World)
      → Grown old w
      → Run
          (IsGrown old)
          (λ p v. Grown old v × (old.last < p))
          (tensor_of_view api view type device w)
  unfolding tensor_of_view
  tensor_of_view-Grown view type device w g =
      Run-bind
        (copy_dims-Kept (api.view_shape_rank w.trace view) (api.view_shape_dims w.trace view) w g)
        λ dims v k.
          new_tensor-Grown
            (record {
              data_ptr = null;
              size = api.view_byte_length w.trace view;
              dims = dims;
              elem_type = type;
              buffer_view = view;
              device = some device;
            })
            v k

  pub tensor_of_data-Grown :
      (src : List Cell) (size : ℕ) (dims : List ℤ) (type : ℕ) (w : World)
      → Grown old w
      → Keeps (IsGrown old) (tensor_of_data api src size dims type w)
  unfolding tensor_of_data
  tensor_of_data-Grown src size dims type w g =
      Run-bind (malloc-Grown api.can_alloc size w g)
        λ p v (k, apart, same). search (kept_rules, split_at-Kept, store-Grown, add_tensor) depth 12

  pub deserialize-Grown :
      (buffer : List Cell) (w : World)
      → Grown old w
      → Keeps (IsGrown old) (deserialize api buffer w)
  unfolding deserialize
  deserialize-Grown buffer w g = Kept-bind (split_at-Kept 4 buffer w g) λ a v k.
      Kept-bind (determined-Kept _ v k) λ type v k. Kept-bind (split_at-Kept 8 a.1 v k) λ b v k.
        Kept-bind (determined-Kept _ v k) λ size v k.
          Run-bind (operator_new-Grown api.can_alloc size v k) λ p v (k, apart).
            search
              (
                kept_rules, split_at-Kept, store-Grown, determined-Kept, resize_dims-Kept,
                add_tensor,
              )
              depth 30

  transfer_d2h-Grown :
      (device buffer output n : ℕ) (w : World)
      → Apart old output
      → Grown old w
      → Keeps (IsGrown old) (transfer_d2h api device buffer output n w)
  unfolding transfer_d2h
  transfer_d2h-Grown device buffer output n w apart g = search (kept_rules, store-Grown) depth 12

  pub read_buffer-Grown :
      (device : Option Ptr) (view output n : ℕ) (w : World)
      → Apart old output
      → Grown old w
      → Keeps (IsGrown old) (read_buffer api device view output n w)
  unfolding read_buffer
  read_buffer-Grown device view output n w apart g =
      search (reading_rules, transfer_d2h-Grown, run_if_cuda_enabled-Kept) depth 14

  fetch_data-Grown :
      (this : Ptr) (t : Tensor) (w : World)
      → w.tensors this ≡ some t
      → t.data_ptr ≡ null
      → Grown old w
      → Keeps (IsGrown old) (fetch_data api this w)
  unfolding fetch_data get_tensor set_tensor
  fetch_data-Grown this t w here bare g = rw here (
      Run-bind (malloc-Grown api.can_alloc t.size w g) λ p v (k, apart, same).
        let filled = fill_tensor-Grown this p t (ap (λ f. f this) same ∙ here) bare k in
        search (kept_rules, read_buffer-Grown) depth 12)

  pub serialize-Grown :
      (this : Ptr) (w : World) → Grown old w → Keeps (IsGrown old) (serialize api this w)
  unfolding serialize get_tensor
  serialize-Grown this w g = elim (Option-cases (w.tensors this)) [
    | inl e ↦ rw e (faults tt)
    | inr (t, e) ↦ elim (Bool-cases (t.data_ptr == null)) [
      | inl bare ↦
          rw (e, bare)
            (Kept-bind (fetch_data-Grown this t w e (ground arith) g)
              λ ready v k. search (kept_rules, sending))
      | inr held ↦ rw (e, held) (search reading_rules depth 12)
    ]
  ]
