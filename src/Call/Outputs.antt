-- ===== src/Call/Outputs.antt =====
-- The tensor that `call` makes of one output.
use nx_iree.Base.{
  ℕ, zero, suc, ◌≡◌, refl, ◌≢◌, inl, inr, Option, none, some, List, [], ◌∷◌, codes, Option-cases,
  arith,
}
use nx_iree.Machine.{
  Ptr, null, World, Tensor, Trace, Res, ok, stop, fault, out_of_bounds, returned, acquire,
  view_kind, call_to, update, M,
}
use nx_iree.Machine.Memory.{get_tensor, set_tensor, new_tensor}
use nx_iree.Api.{Api}
use nx_iree.Tensor.{copy_dims, tensor_of_view}
use nx_iree.Call.{output_tensor}

-- The first `rank` dimensions, if there are as many.
unfoldable pub copied : ℕ → List ℕ → Option (List ℕ)
copied zero dims = some []
copied (suc rank) [] = none
copied (suc rank) (d ∷ dims) = elim (copied rank dims) [ none ↦ none | some ds ↦ some (d ∷ ds) ]

abbrev pub or_past : Option (List ℕ) → M (List ℕ)
or_past none w = fault out_of_bounds
or_past (some ds) w = ok ds w

pub copy_dims-copied :
    (rank : ℕ) (dims : List ℕ) (w : World) → copy_dims rank dims w ≡ or_past (copied rank dims) w
unfolding copy_dims copied
copy_dims-copied zero dims w = refl
copy_dims-copied (suc rank) [] w = refl
copy_dims-copied (suc rank) (d ∷ dims) w = ground (arith, copy_dims-copied rank dims w)

module _ (api : Api) (device outputs : Ptr) (i : ℕ) (w : World) where
  -- The view that the library hands out for the output.
  abbrev pub output_view : Ptr
  output_view = api.list_get_view_retain w.trace outputs i

  abbrev pub retained : Trace
  retained =
      acquire view_kind output_view
      ∷ call_to (codes "iree_vm_list_get_buffer_view_retain") (outputs ∷ i ∷ []) []
      ∷ w.trace

  abbrev rank : ℕ
  rank = api.view_shape_rank retained output_view

  abbrev hal_dims : List ℕ
  hal_dims = api.view_shape_dims retained output_view

  abbrev pub output_dims : Option (List ℕ)
  output_dims = copied rank hal_dims

  -- The library's view and its size, type and dimensions; the data stays on the device.
  abbrev pub output_object : List ℕ → Tensor
  output_object ds = record {
    data_ptr = null;
    size = api.view_byte_length retained output_view;
    dims = ds;
    elem_type = api.view_element_type retained output_view;
    buffer_view = output_view;
    device = some device;
  }

  abbrev with_object : List ℕ → World
  with_object ds = record w {
    last = suc w.last;
    trace = retained;
    tensors = update w.tensors (suc w.last) (some (output_object ds));
  }

  abbrev pub with_output : List ℕ → World
  with_output ds = record w {
    last = suc w.last;
    trace = retained;
    tensors =
        update (update w.tensors (suc w.last) (some (output_object ds))) (suc w.last)
          (some (output_object ds));
  }

  abbrev pub output_result : Option (List ℕ) → Res Ptr
  output_result none = fault out_of_bounds
  output_result (some ds) = ok (suc w.last) (with_output ds)

  pub output_tensor-null :
      output_view ≡ null
      → output_tensor api device outputs i w
        ≡ stop (returned (api.not_found i)) (record w { trace = retained })
  unfolding output_tensor
  output_tensor-null e = ground arith

  pub output_tensor-view :
      output_view ≢ null → output_tensor api device outputs i w ≡ output_result output_dims
  unfolding output_tensor tensor_of_view get_tensor set_tensor new_tensor
  output_tensor-view ne = elim (Option-cases output_dims) [
    | inl e ↦ ground (arith, copy_dims-copied rank hal_dims (record w { trace = retained }))
    | inr (ds, e) ↦ ground (
      arith,
      copy_dims-copied rank hal_dims (record w { trace = retained }),
      copy_dims-copied rank hal_dims (with_object ds),
    )
  ]
