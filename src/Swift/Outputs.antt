-- ===== src/Swift/Outputs.antt =====
-- The outputs of `nx_iree_call`: how many are asked for, and how their tensors are deleted.
use nx_iree.Base.{ℕ, zero, suc, ◌+◌, ◌≤◌, ◌≡◌, refl, ◌≢◌, none, List, [], ◌∷◌, length, arith, ap}
use nx_iree.Machine.{Ptr, null, Tensor, World, view_kind, release, ok, update}
use nx_iree.Machine.Post.{
  Post, Safe, Meets, ends, faults, to_Post, Meets-bind, Meets-mono, Meets-always,
}
use nx_iree.Machine.Memory.{free, get_tensor, set_tensor, free_tensor}
use nx_iree.Api.{Api}
use nx_iree.Tensor.{delete_tensor}
use nx_iree.Tensor.Lifetime.{Holds, delete_tensor_lem, without_data}
use nx_iree.Swift.{element, write_output, write_outputs, delete_inline}

element-bound :
    (i : ℕ) (ps : List Ptr) (w : World)
    → Meets (λ p v. i + 1 ≤ length ps) (λ e v. Unit {0}) (element i ps w)
unfolding element
element-bound i [] w = faults
element-bound zero (p ∷ ps) w = ends (omega arith)
element-bound (suc i) (p ∷ ps) w =
    Meets-mono (element-bound i ps w) (λ a v h. omega arith) (λ e v h. tt)

module _ (api : Api) where
  write_output-bound :
      (result : List Ptr) (i : ℕ) (w : World)
      → Meets (λ o v. i + 1 ≤ length result) (λ e v. Unit {0}) (write_output api result i w)
  unfolding write_output
  write_output-bound result i w =
      Meets-bind (element-bound i result w) λ p v h. Meets-always _ (λ o u. h) (λ e u. tt)

  write_outputs-bound :
      (result : List Ptr) (i left : ℕ) (w : World)
      → i ≤ length result
      → Meets
          (λ os v. (length os ≡ left) × (i + left ≤ length result))
          (λ e v. Unit {0})
          (write_outputs api result i left w)
  unfolding write_outputs
  write_outputs-bound result i zero w h = ends (refl, omega arith)
  write_outputs-bound result i (suc left) w h = Meets-bind (write_output-bound result i w) λ o v g.
      Meets-bind (write_outputs-bound result (suc i) left v (omega arith))
        λ os u k. ends (ap suc k.0, omega arith)

  -- When the loop over the outputs of `nx_iree_call` ends without undefined behaviour or an
  -- exception, it has written as many outputs as it was asked for, and the program has that
  -- many.
  pub write_outputs-count :
      (result : List Ptr) (num_outputs : ℕ) (w : World)
      → Post
          (λ os v. (length os ≡ num_outputs) × (num_outputs ≤ length result))
          (λ e v. Unit {0})
          (write_outputs api result 0 num_outputs w)
  write_outputs-count result num_outputs w = to_Post (
      Meets-mono (write_outputs-bound result 0 num_outputs w (omega arith))
        (λ os v h. (h.0, omega arith)) (λ e v h. tt))

pub delete_inline_lem :
    (p : Ptr) (t : Tensor) (w : World)
    → Holds p t w
    → delete_inline p w
      ≡ ok tt (record (without_data p t w) { tensors = update (without_data p t w).tensors p none })
unfolding delete_inline free get_tensor set_tensor free_tensor
delete_inline_lem p t w h = ground arith

-- The destructor that the Swift API compiles removes a tensor and its host copy and keeps the
-- reference to its view, where the runtime's releases it once, for a tensor with a view whose
-- host copy, if any, is allocated.
pub delete_inline-view :
    (p : Ptr) (t : Tensor) (w : World)
    → Holds p t w
    → t.buffer_view ≢ null
    → Safe (λ u v. (v.tensors p ≡ none) × (v.trace ≡ w.trace)) (λ e v. ⊥) (delete_inline p w)
      × Safe
          (λ u v. (v.tensors p ≡ none) × (v.trace ≡ release view_kind t.buffer_view ∷ w.trace))
          (λ e v. ⊥)
          (delete_tensor p w)
unfolding delete_inline free get_tensor set_tensor free_tensor
delete_inline-view p t w h viewed = (ground arith, rw (delete_tensor_lem p t w h) (ground arith))
