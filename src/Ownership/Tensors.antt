-- ===== src/Ownership/Tensors.antt =====
-- The constructors, the destructor, `serialize` and `read_buffer` of `IREETensor` keep the invariant.
use nx_iree.Base.{
  ℕ, zero, suc, refl, inl, inr, Option, none, List, [], ◌∷◌, Bool, Bool-cases, Option-cases, arith,
  length-replicate, replicate,
}
use nx_iree.Base.Int.{ℤ}
use nx_iree.Machine.{Ptr, null, Cell, World}
use nx_iree.Machine.Memory.{malloc, get_tensor, set_tensor}
use nx_iree.Api.{Api}
use nx_iree.Tensor.{
  copy_dims, run_if_cuda_enabled, tensor_of_view, tensor_of_data, deserialize, transfer_d2h,
  read_buffer, fetch_data, serialize,
}
use nx_iree.Ownership.Heap.{Owned}
use nx_iree.Ownership.Changes.{
  put_tensor, add_block, update-Fits, tensor-le-last, fresh-Spared, fresh-unbuffered,
}
use nx_iree.Ownership.Rules.{
  ends, faults, Run-bind, Kept, Keeps, Shape, Holds, Kept-bind, kept_rules,
}
use nx_iree.Ownership.Memory.{reading_rules, memory_rules, split_at-Kept, determined-Kept}
use nx_iree.Ownership.Ready.{
  new_tensor-Viewed, Ready-bind, malloc-Ready, operator_new-Ready, split_at-Ready, determined-Ready,
  resize_dims-Ready, store-Ready, new_tensor-Ready,
}

pub copy_dims-Kept :
    {J : Shape} (rank : ℕ) (hal_dims : List ℕ) (w : World)
    → Holds J w
    → Keeps J (copy_dims rank hal_dims w)
unfolding copy_dims
copy_dims-Kept zero ds w h = ends h
copy_dims-Kept (suc rank) [] w h = (faults tt)
copy_dims-Kept (suc rank) (d ∷ ds) w h = Kept-bind (copy_dims-Kept rank ds w h) λ _ v k. ends k

module _ (api : Api) where
  pub run_if_cuda_enabled-Kept :
      {J : Shape} (test : Bool) (device : Option Ptr) (w : World)
      → Holds J w
      → Keeps J (run_if_cuda_enabled api test device w)
  unfolding run_if_cuda_enabled
  run_if_cuda_enabled-Kept test device w h = search reading_rules

  pub tensor_of_view-Kept :
      (view type device : ℕ) (w : World) → Owned w → Kept (tensor_of_view api view type device w)
  unfolding tensor_of_view
  tensor_of_view-Kept view type device w h = search (kept_rules, copy_dims-Kept, new_tensor-Viewed)

  pub tensor_of_data-Kept :
      (src : List Cell) (size : ℕ) (dims : List ℤ) (type : ℕ) (w : World)
      → Owned w
      → Kept (tensor_of_data api src size dims type w)
  unfolding tensor_of_data
  tensor_of_data-Kept src size dims type w h =
      Run-bind (malloc-Ready api.can_alloc size w h) λ p v r.
        Ready-bind (split_at-Ready size src v r)
          λ a v r. Ready-bind (store-Ready a.0 v r) λ _ v r. new_tensor-Ready _ v r refl refl refl

  pub deserialize-Kept :
      (buffer : List Cell) (w : World) → Owned w → Kept (deserialize api buffer w)
  unfolding deserialize
  deserialize-Kept buffer w h = Kept-bind (split_at-Kept 4 buffer w h) λ a v k.
      Kept-bind (determined-Kept _ v k) λ type v k. Kept-bind (split_at-Kept 8 a.1 v k) λ b v k.
        Kept-bind (determined-Kept _ v k) λ size v k.
          Run-bind (operator_new-Ready api.can_alloc size v k) λ p v r.
            Ready-bind (split_at-Ready size b.1 v r) λ c v r.
              Ready-bind (store-Ready c.0 v r) λ _ v r.
                Ready-bind (split_at-Ready 8 c.1 v r) λ d v r.
                  Ready-bind (determined-Ready _ v r) λ num_dims v r.
                    Ready-bind (resize_dims-Ready api num_dims v r) λ _ v r.
                      Ready-bind (split_at-Ready _ d.1 v r) λ x v r.
                        Ready-bind (determined-Ready _ v r)
                          λ dims v r. new_tensor-Ready _ v r refl refl refl

  pub transfer_d2h-Kept :
      (device buffer output n : ℕ) (w : World)
      → Owned w
      → Kept (transfer_d2h api device buffer output n w)
  unfolding transfer_d2h
  transfer_d2h-Kept device buffer output n w h = search memory_rules

  pub read_buffer-Kept :
      (device : Option Ptr) (view output n : ℕ) (w : World)
      → Owned w
      → Kept (read_buffer api device view output n w)
  unfolding read_buffer
  read_buffer-Kept device view output n w h =
      search (memory_rules, transfer_d2h-Kept, run_if_cuda_enabled-Kept) depth 12

  pub fetch_data-Kept : (this : Ptr) (w : World) → Owned w → Kept (fetch_data api this w)
  unfolding fetch_data get_tensor set_tensor malloc
  fetch_data-Kept this w h = elim (Option-cases (w.tensors this)) [
    | inl e ↦ rw e (faults tt)
    | inr (t, e) ↦ elim (Bool-cases (api.can_alloc w.trace t.size)) [
      | inl granted ↦
          let copied =
            put_tensor (add_block h (replicate t.size none)) this
              (record t { data_ptr = suc w.last }) (omega (arith, tensor-le-last h this t e))
              (record {
                copy = λ ne. (
                  replicate t.size none,
                  ground arith,
                  length-replicate {0} {A = Cell} t.size none,
                );
                spared = fresh-Spared h this;
                unbuffered = fresh-unbuffered h;
                device = h.placed this t e;
              }) in
          rw (e, granted) (search (kept_rules, read_buffer-Kept) depth 12)
      | inr refused ↦
          let copied =
            put_tensor h this (record t { data_ptr = null }) (tensor-le-last h this t e)
              (update-Fits h this t (record t { data_ptr = null }) e (inr refl) refl (inl refl)
                refl) in
          rw (e, refused) (search kept_rules)
    ]
  ]

  pub serialize-Kept : (this : Ptr) (w : World) → Owned w → Kept (serialize api this w)
  unfolding serialize
  serialize-Kept this w h = search (memory_rules, fetch_data-Kept) depth 12
