-- ===== src/Call/Obliging.antt =====
-- A library that does not fail, up to the invocation of the program.
use nx_iree.Base.{
  codes, ℕ, ◌≤◌, ◌≡◌, ◌∙◌, refl, ◌≢◌, ◌⊎◌, inl, inr, Option, some, List, [], ◌∷◌, Text, length,
  take, false, arith,
}
use nx_iree.Machine.{call_to, Ptr, null, ok_status, Cell, Tensor, Trace, World}
use nx_iree.Machine.Post.{Returns, returns, of_Safe, Returns-bind, Returns-mono}
use nx_iree.Machine.Memory.{get_tensor}
use nx_iree.Machine.Laws.{load-ok}
use nx_iree.Api.{Api}
use nx_iree.Tensor.{run_if_cuda_enabled}
use nx_iree.Call.{load_program, input_ref, push_inputs, make_inputs, invoke, push_ref, new_list}

-- The library's calls succeed, and its views have the dimensions that their rank says. The main
-- function returns `n` values.
pub record Obliging (api : Api) (n : ℕ) : Type 0 where
  pub host : api.cuda_enabled ≡ false
  pub hal : (t : Trace) (i d : Ptr) → (api.hal_module_create t i d).0 ≡ ok_status
  pub bytecode :
      (t : Trace) (i : Ptr) (c : List ℕ) → (api.bytecode_module_create t i c).0 ≡ ok_status
  pub context : (t : Trace) (i h b : Ptr) → (api.context_create t i h b).0 ≡ ok_status
  pub resolve : (t : Trace) (c : Ptr) (name : Text) → (api.resolve_function t c name).0 ≡ ok_status
  pub lists : (t : Trace) (k : ℕ) → (api.list_create t k).0 ≡ ok_status
  pub push : (t : Trace) (l r : Ptr) → api.list_push t l r ≡ ok_status
  pub copy :
      (t : Trace) (d : Ptr) (dims : List ℕ) (type : ℕ) (b : List Cell)
      → (api.allocate_buffer_copy t d dims type b).0 ≡ ok_status
  pub signature : (t : Trace) (f : Ptr) → (api.cconv_fragments t f).0 ≡ ok_status
  pub results : (t : Trace) (f : Ptr) → length (api.cconv_fragments t f).1.1 ≡ n
  pub run : (t : Trace) (c f i o : Ptr) → api.vm_invoke t c f i o ≡ ok_status
  pub views : (t : Trace) (l : Ptr) (i : ℕ) → api.list_get_view_retain t l i ≢ null
  pub ranks : (t : Trace) (v : Ptr) → api.view_shape_rank t v ≡ length (api.view_shape_dims t v)

-- A tensor with a view, or with a host copy of its size.
pub record IsInput (tensors : Ptr → Option Tensor) (blocks : Ptr → Option (List Cell)) (p : Ptr)
    : Type 0 where
  pub tensor : Tensor
  pub here : tensors p ≡ some tensor
  pub readable :
      (tensor.buffer_view ≢ null)
      ⊎ ((b : List Cell) × (blocks tensor.data_ptr ≡ some b)
          × (tensor.data_ptr ≢ null)
          × (tensor.size ≤ length b))

abbrev pub AllInputs : (Ptr → Option Tensor) → (Ptr → Option (List Cell)) → List Ptr → Type 0
AllInputs tensors blocks [] = Unit {0}
AllInputs tensors blocks (p ∷ ps) = IsInput tensors blocks p × AllInputs tensors blocks ps

-- Objects and host memory are as they were.
pub record Unmoved (w v : World) : Type 0 where
  pub tensors_same : v.tensors ≡ w.tensors
  pub blocks_same : v.blocks ≡ w.blocks
  pub devices_same : v.devices ≡ w.devices

pub Unmoved-refl : {w : World} → Unmoved w w
Unmoved-refl = record { tensors_same = refl; blocks_same = refl; devices_same = refl }

pub Unmoved-trans : {w v u : World} → Unmoved w v → Unmoved v u → Unmoved w u
Unmoved-trans g h = record {
  tensors_same = h.tensors_same ∙ g.tensors_same;
  blocks_same = h.blocks_same ∙ g.blocks_same;
  devices_same = h.devices_same ∙ g.devices_same;
}

module _ (api : Api) (n : ℕ) (o : Obliging api n) where
  pub load_program-Returns :
      (i d : Ptr) (name : Text) (code : List ℕ) (w : World)
      → Returns (λ r v. Unmoved w v) (load_program api i d name code w)
  unfolding load_program run_if_cuda_enabled
  load_program-Returns i d name code w =
      rw (o.host, o.hal _ _ _, o.bytecode _ _ _, o.context _ _ _ _, o.resolve _ _ _)
        (returns (record { tensors_same = refl; blocks_same = refl; devices_same = refl }))

  input_ref-Returns :
      (d p : Ptr) (w : World)
      → IsInput w.tensors w.blocks p
      → Returns (λ r v. Unmoved w v) (input_ref api d p w)
  unfolding input_ref get_tensor
  input_ref-Returns d p w h = elim h.readable [
    | inl viewed ↦ of_Safe _ (ground (arith, h.here))
    | inr (b, held, ne, le) ↦ of_Safe _ (
        ground (
          arith,
          h.here,
          load-ok h.tensor.data_ptr h.tensor.size b w ne held le,
          o.copy w.trace d h.tensor.dims h.tensor.elem_type (take h.tensor.size b),
        ))
  ]

  push_ref-Returns : (l ref : Ptr) (w : World) → Returns (λ r v. Unmoved w v) (push_ref api l ref w)
  unfolding push_ref
  push_ref-Returns l ref w =
      rw (o.push _ _ _)
        (returns (record { tensors_same = refl; blocks_same = refl; devices_same = refl }))

  new_list-Returns : (k : ℕ) (w : World) → Returns (λ r v. Unmoved w v) (new_list api k w)
  unfolding new_list
  new_list-Returns k w =
      rw (o.lists _ _)
        (returns (record { tensors_same = refl; blocks_same = refl; devices_same = refl }))

  push_inputs-Returns :
      (d l : Ptr) (ps : List Ptr) (w : World)
      → AllInputs w.tensors w.blocks ps
      → Returns (λ r v. Unmoved w v) (push_inputs api d l ps w)
  unfolding push_inputs
  push_inputs-Returns d l [] w h = returns Unmoved-refl
  push_inputs-Returns d l (p ∷ ps) w h = Returns-bind (input_ref-Returns d p w h.0) λ ref v g.
      Returns-bind (push_ref-Returns l ref v) λ r u k.
        Returns-mono
          (push_inputs-Returns d l ps u
            (rw (k.tensors_same, k.blocks_same, g.tensors_same, g.blocks_same) h.1))
          λ x t j. Unmoved-trans g (Unmoved-trans k j)

  pub make_inputs-Returns :
      (d : Ptr) (ps : List Ptr) (w : World)
      → AllInputs w.tensors w.blocks ps
      → Returns (λ r v. Unmoved w v) (make_inputs api d ps w)
  unfolding make_inputs
  make_inputs-Returns d ps w h = Returns-bind (new_list-Returns (length ps) w) λ l v g.
      Returns-bind (push_inputs-Returns d l ps v (rw (g.tensors_same, g.blocks_same) h))
        λ r u k. returns (Unmoved-trans g k)

  pub invoke-Returns :
      (c f l : Ptr) (w : World)
      → Returns
          (λ r v.
            (r.1 ≡ n)
            × ((before : Trace) × (v.trace
                  ≡ call_to (codes "iree_vm_invoke") (c ∷ f ∷ l ∷ r.0 ∷ []) [] ∷ before))
            × Unmoved w v)
          (invoke api c f l w)
  unfolding invoke new_list
  invoke-Returns c f l w =
      rw (o.signature _ _, o.lists _ _, o.run _ _ _ _ _)
        (returns (
          o.results _ _,
          (_, refl),
          record { tensors_same = refl; blocks_same = refl; devices_same = refl },
        ))
