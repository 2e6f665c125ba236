-- ===== src/Call/Success.antt =====
-- `call` on a library that does not fail: the run ends, with all outputs.
use nx_iree.Base.{
  ◌==◌, Bool-cases, ◌∙◌, ℕ, zero, suc, ◌≡◌, refl, inl, inr, Option, some, List, [], ◌∷◌, Text,
  length, ap, arith,
}
use nx_iree.Machine.{update, Ptr, null, Status, ok_status, Tensor, World}
use nx_iree.Machine.Post.{
  Returns-mono, Safe, Returns, returns, to_Safe, Returns-bind, Returns-on_return,
}
use nx_iree.Api.{Api}
use nx_iree.Call.Outputs.{with_output, output_object, copied, output_tensor-view}
use nx_iree.Call.{output_tensor, collect_outputs, run_program, release_run, call}
use nx_iree.Call.Obliging.{
  Obliging, AllInputs, load_program-Returns, make_inputs-Returns, invoke-Returns,
}

pub copied-all : (dims : List ℕ) → copied (length dims) dims ≡ some dims
unfolding copied
copied-all [] = refl
copied-all (d ∷ dims) = ground (arith, copied-all dims)

abbrev pub Defined : (Ptr → Option Tensor) → Ptr → Type 0
Defined tensors p = (t : Tensor) × (tensors p ≡ some t)

abbrev pub AllDefined : (Ptr → Option Tensor) → List Ptr → Type 0
AllDefined tensors [] = Unit {0}
AllDefined tensors (p ∷ ps) = Defined tensors p × AllDefined tensors ps

update-Defined :
    (tensors : Ptr → Option Tensor) (p q : Ptr) (t : Tensor)
    → Defined tensors q
    → Defined (update tensors p (some t)) q
update-Defined tensors p q t (u, there) = elim (Bool-cases (p == q)) [
  | inl e ↦ (t, rw e refl)
  | inr e ↦ (u, rw e there)
]

module _ (api : Api) (n : ℕ) (o : Obliging api n) where
  with_output-Defined :
      (d l : Ptr) (i : ℕ) (w : World) (dims : List ℕ)
      → Defined (with_output api d l i w dims).tensors (suc w.last)
  with_output-Defined d l i w dims = (output_object api d l i w dims, ground arith)

  with_output-grows :
      (d l : Ptr) (i : ℕ) (w : World) (dims : List ℕ) (q : Ptr)
      → Defined w.tensors q
      → Defined (with_output api d l i w dims).tensors q
  with_output-grows d l i w dims q there =
      update-Defined (update w.tensors (suc w.last) (some object)) (suc w.last) q object
        (update-Defined w.tensors (suc w.last) q object there)
    where
      object : Tensor
      object = output_object api d l i w dims

  output_tensor-Returns :
      (d l : Ptr) (i : ℕ) (w : World)
      → Returns
          (λ p v. Defined v.tensors p × ((q : Ptr) → Defined w.tensors q → Defined v.tensors q))
          (output_tensor api d l i w)
  output_tensor-Returns d l i w =
      rw (output_tensor-view api d l i w (o.views _ _ _), o.ranks _ _, copied-all _)
        (returns (with_output-Defined d l i w _, with_output-grows d l i w _))

  collect_outputs-Returns :
      (d l : Ptr) (i left : ℕ) (w : World)
      → Returns
          (λ rs v.
            (length rs ≡ left)
            × AllDefined v.tensors rs
            × ((q : Ptr) → Defined w.tensors q → Defined v.tensors q))
          (collect_outputs api d l i left w)
  unfolding collect_outputs
  collect_outputs-Returns d l i zero w = returns (refl, tt, λ q there. there)
  collect_outputs-Returns d l i (suc left) w = Returns-bind (output_tensor-Returns d l i w) λ r v h.
      Returns-bind (collect_outputs-Returns d l (suc i) left v)
        λ rs u g. returns (ap suc g.0, (g.2 r h.0, g.1), λ q there. g.2 q (h.1 q there))

  -- OK, and `n` outputs whose tensors are there.
  abbrev pub Succeeds : Status × Option (List Ptr) → World → Type 0
  Succeeds r v =
      (r.0 ≡ ok_status)
      × ((rs : List Ptr) × (r.1 ≡ some rs) × (length rs ≡ n) × AllDefined v.tensors rs)

  run_program-Returns :
      (d c f : Ptr) (ps : List Ptr) (w : World)
      → AllInputs w.tensors w.blocks ps
      → Returns Succeeds (run_program api d c f ps w)
  unfolding run_program release_run
  run_program-Returns d c f ps w h = Returns-bind (make_inputs-Returns api n o d ps w h) λ l v g.
      Returns-bind (invoke-Returns api n o c f l v) λ x u k.
        Returns-bind (collect_outputs-Returns d x.0 0 x.1 u) λ rs t j.
          elim (Bool-cases (c == null)) [
            | inl e ↦ rw e (returns (refl, (rs, refl, j.0 ∙ k.0, j.1)))
            | inr e ↦ rw e (returns (refl, (rs, refl, j.0 ∙ k.0, j.1)))
          ]

  pub call-Succeeds :
      (i d : Ptr) (name : Text) (code : List ℕ) (ps : List Ptr) (w : World)
      → AllInputs w.tensors w.blocks ps
      → Returns Succeeds (call api i d name code ps w)
  unfolding call
  call-Succeeds i d name code ps w h = Returns-on_return _ (
      Returns-bind (load_program-Returns api n o i d name code w)
        λ c v g. run_program-Returns d c.0 c.1 ps v (rw (g.tensors_same, g.blocks_same) h))

  -- On a library whose calls all succeed, whose views have as many dimensions as their rank,
  -- and whose main function returns `n` values, `call` without CUDA and with inputs that have a
  -- view or a host copy of their size ends with the status OK and `n` outputs, by no fault and
  -- no exception.
  pub call-success :
      (i d : Ptr) (name : Text) (code : List ℕ) (ps : List Ptr) (w : World)
      → AllInputs w.tensors w.blocks ps
      → Safe
          (λ r v. (r.0 ≡ ok_status) × ((rs : List Ptr) × (r.1 ≡ some rs) × (length rs ≡ n)))
          (λ e v. ⊥)
          (call api i d name code ps w)
  call-success i d name code ps w h =
      to_Safe
        (Returns-mono (call-Succeeds i d name code ps w h) λ r v s. (s.0, (s.1.0, s.1.1, s.1.2)))
