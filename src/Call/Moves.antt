-- ===== src/Call/Moves.antt =====
-- What a call does to the views of its inputs: it gives their references away and forgets to note it.
use nx_iree.Base.{
  ℕ, zero, suc, ◌+◌, ◌≤◌, ◌≡◌, refl, ◌≢◌, Option, none, some, List, [], ◌∷◌, Text, Option-cases,
  arith, subst, ◌==◌, if◌then◌else◌, inl,
}
use nx_iree.Machine.{
  Ptr, null, Status, ok_status, Tensor, World, returned, bad_alloc, runtime_error, Res, ok,
  on_return,
}
use nx_iree.Machine.Post.{Post, Meets, ends, of_Post, stops, faults, Meets-bind, Meets-mono}
use nx_iree.Machine.Ledger.{view_disposed}
use nx_iree.Machine.Memory.{get_tensor, load, determined}
use nx_iree.Api.{Api}
use nx_iree.Tensor.{run_if_cuda_enabled, deallocate}
use nx_iree.Tensor.Lifetime.{deallocate_lem, deallocated}
use nx_iree.Call.Outputs.{output_tensor-null, output_tensor-view, output_dims}
use nx_iree.Call.Outcome.{Stopped}
use nx_iree.Call.{
  load_program, input_ref, push_inputs, output_tensor, collect_outputs, run_program, make_inputs,
  invoke, release_run, call, push_ref, new_list,
}

-- How often an input is given.
abbrev pub times : Ptr → List Ptr → ℕ
times p [] = 0
times p (q ∷ ps) = (if q == p then 1 else 0) + times p ps

-- A tensor `t` at `p` whose data is only on the device.
pub record IsRemote (p : Ptr) (t : Tensor) (w : World) : Type 0 where
  pub here : w.tensors p ≡ some t
  pub known : p ≤ w.last
  pub viewed : t.buffer_view ≢ null
  pub no_copy : t.data_ptr ≡ null

module _ (p : Ptr) (t : Tensor) where
  disposals : World → ℕ
  disposals w = view_disposed t.buffer_view w.trace

  -- The tensor is as it was, and its view was disposed of `n` times more at least.
  abbrev Moved : ℕ → World → World → Type 0
  Moved n w u = IsRemote p t u × (disposals w + n ≤ disposals u)

  abbrev Moves : {A : Type 0} → ℕ → World → Res A → Type 0
  Moves n w = Meets (λ a u. Moved n w u) Stopped

  later :
      {A : Type 0} {r : Res A} (m n k : ℕ) (w v : World)
      → Moved m w v
      → Moves n v r
      → k ≤ m + n
      → Moves k w r
  later m n k w v h moves e = Meets-mono moves (λ a u q. (q.0, omega arith)) (λ x u q. q)

  released :
      (w : World)
      → IsRemote p t w
      → (deallocate p w ≡ ok tt (deallocated p t w))
        × (disposals (deallocated p t w) ≡ disposals w + 1)
  unfolding disposals view_disposed
  released w h =
      (deallocate_lem p t w (record { here = h.here; allocated = inl h.no_copy }), ground arith)

  -- The tensor can still be deallocated, which disposes of the view once more.
  abbrev Overdrawn : ℕ → World → World → Type 0
  Overdrawn n w u = (x : World) × (deallocate p u ≡ ok tt x) × (disposals w + n + 1 ≤ disposals x)

  module _ (api : Api) where
    load_program-Moves :
        (i d : Ptr) (name : Text) (code : List ℕ) (w : World)
        → IsRemote p t w
        → Moves 0 w (load_program api i d name code w)
    unfolding load_program run_if_cuda_enabled determined disposals view_disposed
    load_program-Moves i d name code w h = of_Post _ (ground arith)

    input_ref-Moves :
        (d q : Ptr) (w : World)
        → IsRemote p t w
        → Moves (if q == p then 1 else 0) w (input_ref api d q w)
    unfolding input_ref get_tensor load disposals view_disposed
    input_ref-Moves d q w h = of_Post _ (ground arith)

    push_ref-Moves : (l ref : Ptr) (w : World) → IsRemote p t w → Moves 0 w (push_ref api l ref w)
    unfolding push_ref disposals view_disposed
    push_ref-Moves l ref w h = of_Post _ (ground arith)

    new_list-Moves : (n : ℕ) (w : World) → IsRemote p t w → Moves 0 w (new_list api n w)
    unfolding new_list disposals view_disposed
    new_list-Moves n w h = of_Post _ (ground arith)

    invoke-Moves : (c f l : Ptr) (w : World) → IsRemote p t w → Moves 0 w (invoke api c f l w)
    unfolding invoke disposals view_disposed
    invoke-Moves c f l w h = of_Post _ (ground arith)

    release_run-Moves : (c l o : Ptr) (w : World) → IsRemote p t w → Moves 0 w (release_run c l o w)
    unfolding release_run disposals view_disposed
    release_run-Moves c l o w h = of_Post _ (ground arith)

    push_inputs-Moves :
        (d l : Ptr) (ps : List Ptr) (w : World)
        → IsRemote p t w
        → Moves (times p ps) w (push_inputs api d l ps w)
    unfolding push_inputs
    push_inputs-Moves d l [] w h = ends (h, omega arith)
    push_inputs-Moves d l (q ∷ ps) w h = Meets-bind (input_ref-Moves d q w h) λ ref v g.
        Meets-bind (push_ref-Moves l ref v g.0) λ x u k.
          later (if q == p then 1 else 0) (times p ps) (times p (q ∷ ps)) w u (k.0, omega arith)
            (push_inputs-Moves d l ps u k.0) (omega arith)

    make_inputs-Moves :
        (d : Ptr) (ps : List Ptr) (w : World)
        → IsRemote p t w
        → Moves (times p ps) w (make_inputs api d ps w)
    unfolding make_inputs
    make_inputs-Moves d ps w h =
        Meets-bind (new_list-Moves _ w h)
          λ l v g. Meets-bind (push_inputs-Moves d l ps v g.0) λ x u k. ends (k.0, omega arith)

    output_tensor-Moves :
        (d l : Ptr) (i : ℕ) (w : World) → IsRemote p t w → Moves 0 w (output_tensor api d l i w)
    unfolding disposals view_disposed
    output_tensor-Moves d l i w h = of_Post _ (
        ground (
          arith,
          output_tensor-null api d l i w,
          output_tensor-view api d l i w,
          Option-cases (output_dims api d l i w),
        ))

    collect_outputs-Moves :
        (d l : Ptr) (i left : ℕ) (w : World)
        → IsRemote p t w
        → Moves 0 w (collect_outputs api d l i left w)
    unfolding collect_outputs
    collect_outputs-Moves d l i zero w h = ends (h, omega arith)
    collect_outputs-Moves d l i (suc left) w h = Meets-bind (output_tensor-Moves d l i w h) λ r v g.
        Meets-bind (collect_outputs-Moves d l (suc i) left v g.0) λ rs u k. ends (k.0, omega arith)

    run_program-Moves :
        (d c f : Ptr) (ps : List Ptr) (w : World)
        → IsRemote p t w
        → Moves (times p ps) w (run_program api d c f ps w)
    unfolding run_program
    run_program-Moves d c f ps w h = Meets-bind (make_inputs-Moves d ps w h) λ l v g.
        Meets-bind (invoke-Moves c f l v g.0) λ o u k.
          Meets-bind (collect_outputs-Moves d o.0 0 o.1 u k.0)
            λ rs x j. Meets-bind (release_run-Moves c l o.0 x j.0) λ y z n. ends (n.0, omega arith)

    on_return-Moves :
        (n : ℕ) (w : World) {r : Res (Status × Option (List Ptr))}
        → Moves n w r
        → Post
            (λ a u. (rs : List Ptr) → a ≡ (ok_status, some rs) → Overdrawn n w u)
            (λ e u. Unit {0})
            (on_return (λ status. (status, none)) r)
    on_return-Moves n w (ends {w = u} q) =
        λ rs h. (deallocated p t u, (released u q.0).0, omega (arith, (released u q.0).1))
    on_return-Moves n w (stops {e = returned s} q) = λ rs h. absurd (cc)
    on_return-Moves n w (stops {e = bad_alloc} q) = tt
    on_return-Moves n w (stops {e = runtime_error m} q) = tt
    on_return-Moves n w faults = tt

call-Overdrawn :
    (api : Api) (i d : Ptr) (name : Text) (code : List ℕ) (ps : List Ptr) (p : Ptr) (t : Tensor)
    (w : World)
    → IsRemote p t w
    → Post
        (λ r u. (rs : List Ptr) → r ≡ (ok_status, some rs) → Overdrawn p t (times p ps) w u)
        (λ e u. Unit {0})
        (call api i d name code ps w)
unfolding call
call-Overdrawn api i d name code ps p t w h = on_return-Moves p t api (times p ps) w (
    Meets-bind (load_program-Moves p t api i d name code w h) λ c v g.
      later p t 0 (times p ps) (times p ps) w v g (run_program-Moves p t api d c.0 c.1 ps v g.0)
        (omega arith))

-- Each time that a tensor whose data is only on the device is an input of a `call` that gives
-- results, a reference to its view is given away, and `deallocate` afterwards gives one back
-- once more: of the one reference that the tensor holds, two or more are disposed of.
pub call-deallocate :
    (api : Api) (i d : Ptr) (name : Text) (code : List ℕ) (ps : List Ptr) (p : Ptr) (t : Tensor)
    (w u : World) (rs : List Ptr)
    → IsRemote p t w
    → call api i d name code ps w ≡ ok (ok_status, some rs) u
    → (x : World) × (deallocate p u ≡ ok tt x)
      × (view_disposed t.buffer_view w.trace + times p ps + 1 ≤ view_disposed t.buffer_view x.trace)
unfolding disposals
call-deallocate api i d name code ps p t w u rs h e =
    subst
      (Post (λ r v. (qs : List Ptr) → r ≡ (ok_status, some qs) → Overdrawn p t (times p ps) w v)
        (λ x v. Unit {0}))
      e (call-Overdrawn api i d name code ps p t w h) rs refl
