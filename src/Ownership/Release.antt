-- ===== src/Ownership/Release.antt =====
-- `deallocate` and the destructor free a block that nobody else has, and leave no tensor with it.
use nx_iree.Base.{◌≡◌, refl, inl, inr, some, Bool-cases, Option-cases, arith, ◌==◌}
use nx_iree.Machine.{Ptr, null, Tensor, World, update}
use nx_iree.Machine.Memory.{get_tensor}
use nx_iree.Tensor.{deallocate, delete_tensor}
use nx_iree.Tensor.Lifetime.{
  Holds, emptied, without_data, deallocated, deallocate_lem, delete_tensor_lem,
}
use nx_iree.Ownership.Heap.{Owned, IsOwned}
use nx_iree.Ownership.Changes.{put_tensor, drop_block, drop_tensor, update-Fits, tensor-le-last}
use nx_iree.Ownership.Rules.{ends, faults, Kept}

module _ (this : Ptr) (t : Tensor) (w : World) (h : Owned w) (here : w.tensors this ≡ some t) where
  -- A tensor that is there holds its copy.
  pub Owned-Holds : Holds this t w
  Owned-Holds = record {
    here = here;
    allocated = elim (Bool-cases (t.data_ptr == null)) [
      | inl e ↦ inl (ground arith)
      | inr e ↦ inr (ground (arith, h.held this t here))
    ];
  }

  -- A tensor at its place, with less than it had.
  replace :
      (u : Tensor)
      → u.data_ptr ≡ null
      → u.size ≡ t.size
      → u.device ≡ t.device
      → u.buffer_view ≡ t.buffer_view
      → IsOwned w.blocks (update w.tensors this (some u)) w.buffers w.last
  replace u none_here size device view =
      put_tensor h this u (tensor-le-last h this t here)
        (update-Fits h this t u here (inr none_here) size (inl view) device)

  pub without_data-Owned : Owned (without_data this t w)
  without_data-Owned = elim (Bool-cases (t.data_ptr == null)) [
    | inl e ↦ rw e h
    | inr e ↦ rw e (
        drop_block (replace (record t { data_ptr = null }) refl refl refl refl) t.data_ptr
          (λ q u there ne. λ same. ground (arith, h.apart this q t u here))
          λ q b there. λ same. ground (arith, h.alone q this b t there here))
  ]

  without_data-here : (without_data this t w).tensors this ≡ some (record t { data_ptr = null })
  without_data-here = ground (arith, here)

  pub deallocated-Owned : Owned (deallocated this t w)
  deallocated-Owned = elim (Bool-cases (t.buffer_view == null)) [
    | inl e ↦ rw e without_data-Owned
    | inr e ↦ rw e (
        put_tensor without_data-Owned this (emptied t)
          (tensor-le-last without_data-Owned this (record t { data_ptr = null }) without_data-here)
          (update-Fits without_data-Owned this (record t { data_ptr = null }) (emptied t)
            without_data-here (inl refl) refl (inr refl) refl))
  ]

module _ (this : Ptr) (w : World) (h : Owned w) where
  pub deallocate-Kept : Kept (deallocate this w)
  unfolding deallocate get_tensor
  deallocate-Kept = elim (Option-cases (w.tensors this)) [
    | inl e ↦ rw e (faults tt)
    | inr (t, e) ↦
        rw (deallocate_lem this t w (Owned-Holds this t w h e))
          (ends (deallocated-Owned this t w h e))
  ]

  pub delete_tensor-Kept : Kept (delete_tensor this w)
  unfolding delete_tensor deallocate get_tensor
  delete_tensor-Kept = elim (Option-cases (w.tensors this)) [
    | inl e ↦ rw e (faults tt)
    | inr (t, e) ↦
        rw (delete_tensor_lem this t w (Owned-Holds this t w h e))
          (ends (drop_tensor (deallocated-Owned this t w h e) this))
  ]
