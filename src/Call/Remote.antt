-- ===== src/Call/Remote.antt =====
-- The tensors that `call` gives: on the device, one after another in fresh memory.
use nx_iree.Base.{
  codes, subst, ◌^◌, ℕ, zero, suc, ◌≤◌, ◌<◌, ◌≡◌, ◌∙◌, refl, ◌≢◌, inl, inr, some, List, [], ◌∷◌,
  Text, length, ap, Bool-cases, true, ◌==◌, arith, Option,
}
use nx_iree.Machine.{
  acquire, call_to, view_kind, Ptr, null, Status, ok_status, Tensor, Trace, World,
}
use nx_iree.Machine.Post.{Returns, returns, Returns-bind, Returns-mono, Returns-on_return}
use nx_iree.Api.{Api, TransfersAll}
use nx_iree.Tensor.{size_max}
use nx_iree.Tensor.Bytes.{AllU64}
use nx_iree.Tensor.RoundTrip.{IsTensor}
use nx_iree.Call.{output_tensor, collect_outputs, run_program, release_run, call}
use nx_iree.Call.Outputs.{with_output, output_object, retained, output_view, output_tensor-view}
use nx_iree.Call.Obliging.{
  Obliging, AllInputs, Unmoved, load_program-Returns, make_inputs-Returns, invoke-Returns,
}
use nx_iree.Call.Success.{copied-all}

-- A library that grants memory, copies to the host all that it is asked for, and whose views
-- and buffers are smaller than 2 ^ 64 - 1 bytes, with types and dimensions that fit their fields.
pub record Delivering (api : Api) : Type 0 where
  pub grants : (t : Trace) (n : ℕ) → api.can_alloc t n ≡ true
  pub whole : TransfersAll api
  pub copies : (t : Trace) (d b : Ptr) (n : ℕ) → (api.transfer_d2h t d b n).0 ≡ ok_status
  pub views : (t : Trace) (v : Ptr) → api.view_byte_length t v < size_max
  pub types : (t : Trace) (v : Ptr) → api.view_element_type t v < 2 ^ 32
  pub dims : (t : Trace) (v : Ptr) → AllU64 (api.view_shape_dims t v)
  pub ranks : (t : Trace) (v : Ptr) → length (api.view_shape_dims t v) < 2 ^ 60
  pub buffers : (t : Trace) (b : Ptr) → api.buffer_byte_length t b < size_max

abbrev pub Tensors : Type 0
Tensors = Ptr → Option Tensor

-- The tensor's data is only on the device `d`.
pub record IsRemote (d : Ptr) (t : Tensor) : Type 0 where
  pub no_copy : t.data_ptr ≡ null
  pub viewed : t.buffer_view ≢ null
  pub on : t.device ≡ some d
  pub bounded : t.size < size_max
  pub fits : IsTensor t

-- The tensors at `ps` are these, all on the device, and stand in ascending places above `l`.
pub data Remotes (d : Ptr) (tensors : Tensors) : Ptr → List Ptr → List Tensor → Type 0 where
  nil : {l : Ptr} → Remotes d tensors l [] []
  cons :
      {l p : Ptr} {ps : List Ptr} {t : Tensor} {ts : List Tensor}
      → l < p
      → tensors p ≡ some t
      → IsRemote d t
      → Remotes d tensors p ps ts
      → Remotes d tensors l (p ∷ ps) (t ∷ ts)

-- The call of `iree_vm_invoke`, with what was called before it.
pub record Invocation : Type 0 where
  pub context : Ptr
  pub main_function : Ptr
  pub inputs : Ptr
  pub outputs : Ptr
  pub before : Trace

abbrev pub invoked : Invocation → Trace
invoked x =
    call_to (codes "iree_vm_invoke") (x.context ∷ x.main_function ∷ x.inputs ∷ x.outputs ∷ []) []
    ∷ x.before

-- Outputs of the list `l`, from `i` on, as the library hands them out one after another, with the
-- size, dimensions and type that it then says.
abbrev pub outputs_from : Api → Ptr → Ptr → ℕ → ℕ → Trace → List Tensor
outputs_from api d l i zero s = []
outputs_from api d l i (suc left) s =
    let v = api.list_get_view_retain s l i in
    let r =
      acquire view_kind v
      ∷ call_to (codes "iree_vm_list_get_buffer_view_retain") (l ∷ i ∷ []) []
      ∷ s in
    record {
      data_ptr = null;
      size = api.view_byte_length r v;
      dims = api.view_shape_dims r v;
      elem_type = api.view_element_type r v;
      buffer_view = v;
      device = some d;
    }
    ∷ outputs_from api d l (suc i) left r

-- The first `n` outputs of a program that was invoked.
abbrev pub program_outputs : Api → Ptr → ℕ → Invocation → List Tensor
program_outputs api d n x = outputs_from api d x.outputs 0 n (invoked x)

-- A change below does not matter.
pub Remotes-frame :
    {d : Ptr} {f g : Tensors} {l : Ptr} {ps : List Ptr} {ts : List Tensor}
    → Remotes d f l ps ts
    → ((q : Ptr) → l < q → g q ≡ f q)
    → Remotes d g l ps ts
Remotes-frame nil same = nil
Remotes-frame (cons {p} lt here r rs) same =
    cons lt (same p lt ∙ here) r (Remotes-frame rs λ q h. same q (omega arith))

pub Remotes-lower :
    {d : Ptr} {f : Tensors} {l k : Ptr} {ps : List Ptr} {ts : List Tensor}
    → Remotes d f l ps ts
    → k ≤ l
    → Remotes d f k ps ts
Remotes-lower nil le = nil
Remotes-lower (cons lt here r rs) le = cons (omega arith) here r rs

module _ (api : Api) (n : ℕ) (o : Obliging api n) (dl : Delivering api) where
  abbrev handed : (d l : Ptr) (i : ℕ) (w : World) → Tensor
  handed d l i w =
      output_object api d l i w
        (api.view_shape_dims (retained api d l i w) (output_view api d l i w))

  output-IsRemote :
      (d l : Ptr) (i : ℕ) (w : World)
      → ((with_output api d l i w
              (api.view_shape_dims (retained api d l i w) (output_view api d l i w))).tensors
            (suc w.last)
          ≡ some (handed d l i w))
        × IsRemote d (handed d l i w)
  output-IsRemote d l i w = (
    ground arith,
    record {
      no_copy = refl;
      viewed = o.views _ _ _;
      on = refl;
      bounded = dl.views _ _;
      fits = record {
        type_fits = dl.types _ _;
        size_fits = omega (arith, dl.views);
        dims_fit = dl.dims _ _;
        rank_fits = dl.ranks _ _;
      };
    },
  )

  below :
      (d l : Ptr) (i : ℕ) (w : World) (dims : List ℕ) (q : Ptr)
      → q ≤ w.last
      → (with_output api d l i w dims).tensors q ≡ w.tensors q
  below d l i w dims q le = ground arith

  output_tensor-Returns :
      (d l : Ptr) (i : ℕ) (w : World)
      → Returns
          (λ p v.
            (p ≡ suc w.last)
            × (v.last ≡ suc w.last)
            × ((v.tensors p ≡ some (handed d l i w)) × IsRemote d (handed d l i w))
            × (v.trace ≡ retained api d l i w)
            × ((q : Ptr) → q ≤ w.last → v.tensors q ≡ w.tensors q)
            × (v.blocks ≡ w.blocks)
            × (v.devices ≡ w.devices))
          (output_tensor api d l i w)
  output_tensor-Returns d l i w =
      rw (output_tensor-view api d l i w (o.views _ _ _), o.ranks _ _, copied-all _)
        (returns (refl, refl, output-IsRemote d l i w, refl, below d l i w _, refl, refl))

  collect_outputs-Returns :
      (d l : Ptr) (i left : ℕ) (w : World)
      → Returns
          (λ rs v.
            (length rs ≡ left)
            × Remotes d v.tensors w.last rs (outputs_from api d l i left w.trace)
            × ((q : Ptr) → q ≤ w.last → v.tensors q ≡ w.tensors q)
            × (v.blocks ≡ w.blocks)
            × (v.devices ≡ w.devices))
          (collect_outputs api d l i left w)
  unfolding collect_outputs
  collect_outputs-Returns d l i zero w = returns (refl, nil, (λ q le. refl), refl, refl)
  collect_outputs-Returns d l i (suc left) w =
      Returns-bind (output_tensor-Returns d l i w) λ p v (at, high, (here, r), after, same, bs, ds).
        Returns-bind (collect_outputs-Returns d l (suc i) left v)
          λ rs u (len, all, same', bs', ds'). returns (
            ap suc len,
            cons (omega arith) (same' p (omega arith) ∙ here) r (
                Remotes-lower
                  (subst (λ s. Remotes d u.tensors v.last rs (outputs_from api d l (suc i) left s))
                    after all)
                  (omega arith)),
            (λ q le. same' q (omega arith) ∙ same q le),
            bs' ∙ bs,
            ds' ∙ ds,
          )

  release_run-Unmoved :
      (c i l : Ptr) (w : World) → Returns (λ u v. Unmoved w v) (release_run c i l w)
  unfolding release_run
  release_run-Unmoved c i l w = elim (Bool-cases (c == null)) [
    | inl e ↦
        rw e (returns (record { tensors_same = refl; blocks_same = refl; devices_same = refl }))
    | inr e ↦
        rw e (returns (record { tensors_same = refl; blocks_same = refl; devices_same = refl }))
  ]

  -- OK, and `n` tensors whose data is on the device `d`; the device objects are as they were.
  pub record Delivered (d : Ptr) (w : World) (r : Status × Option (List Ptr)) (v : World)
      : Type 0 where
    pub fine : r.0 ≡ ok_status
    pub results : List Ptr
    pub given : r.1 ≡ some results
    pub count : length results ≡ n
    pub invocation : Invocation
    pub remotes : Remotes d v.tensors 0 results (program_outputs api d n invocation)
    pub devices_kept : v.devices ≡ w.devices

  run_program-Returns :
      (d c f : Ptr) (ps : List Ptr) (w : World)
      → AllInputs w.tensors w.blocks ps
      → Returns (Delivered d w) (run_program api d c f ps w)
  unfolding run_program
  run_program-Returns d c f ps w h = Returns-bind (make_inputs-Returns api n o d ps w h) λ l v g.
      Returns-bind (invoke-Returns api n o c f l v) λ x u (many, (before, at), k).
        Returns-bind (collect_outputs-Returns d x.0 0 x.1 u) λ rs t (len, all, same, bs, ds).
          Returns-bind (release_run-Unmoved c l x.0 t) λ y s j. returns (record {
            fine = refl;
            results = rs;
            given = refl;
            count = len ∙ many;
            invocation = record {
              context = c;
              main_function = f;
              inputs = l;
              outputs = x.0;
              before = before;
            };
            remotes =
                Remotes-frame
                  (subst (λ s. Remotes d t.tensors 0 rs (outputs_from api d x.0 0 n s)) at
                    (subst (λ k. Remotes d t.tensors 0 rs (outputs_from api d x.0 0 k u.trace)) many
                      (Remotes-lower all (omega arith))))
                  λ q h. rw j.tensors_same refl;
            devices_kept = j.devices_same ∙ (ds ∙ (k.devices_same ∙ g.devices_same));
          })

  pub call-Delivered :
      (i d : Ptr) (name : Text) (code : List ℕ) (ps : List Ptr) (w : World)
      → AllInputs w.tensors w.blocks ps
      → Returns (Delivered d w) (call api i d name code ps w)
  unfolding call
  call-Delivered i d name code ps w h = Returns-on_return _ (
      Returns-bind (load_program-Returns api n o i d name code w) λ c v g.
        Returns-mono (run_program-Returns d c.0 c.1 ps v (rw (g.tensors_same, g.blocks_same) h))
          λ r t m. record {
            fine = m.fine;
            results = m.results;
            given = m.given;
            count = m.count;
            invocation = m.invocation;
            remotes = m.remotes;
            devices_kept = m.devices_kept ∙ g.devices_same;
          })
