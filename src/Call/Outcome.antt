-- ===== src/Call/Outcome.antt =====
-- The two halves of what `call` returns agree.
use nx_iree.Base.{ℕ, ◌≡◌, refl, ◌≢◌, ◌⊎◌, inr, Option, none, some, List, Text, arith}
use nx_iree.Machine.{
  Ptr, Status, ok_status, World, Exit, returned, bad_alloc, runtime_error, Res, on_return,
}
use nx_iree.Machine.Post.{Post, Meets, ends, of_Post, stops, faults, Meets-bind, Meets-always}
use nx_iree.Api.{Api}
use nx_iree.Call.{
  load_program, collect_outputs, run_program, make_inputs, invoke, release_run, call,
}

-- Results come only with OK. There may be none with OK: a call that fails is made again, and the
-- status of the second one is returned.
abbrev pub Agrees : Status × Option (List Ptr) → Type 0
Agrees r = ((r.0 ≡ ok_status) × ((rs : List Ptr) × (r.1 ≡ some rs))) ⊎ (r.1 ≡ none)

-- Whatever a part of `call` stops with.
abbrev pub Stopped : Exit → World → Type 0
Stopped e w = Unit {0}

pub on_return-Agrees :
    {r : Res (Status × Option (List Ptr))}
    → Meets (λ r v. Agrees r) Stopped r
    → Post
        (λ r v. Agrees r)
        (λ e v. (s : Status) → e ≢ returned s)
        (on_return (λ status. (status, none)) r)
on_return-Agrees (ends p) = p
on_return-Agrees (stops {e = returned s} q) = inr refl
on_return-Agrees (stops {e = bad_alloc} q) = λ s h. cc
on_return-Agrees (stops {e = runtime_error m} q) = λ s h. cc
on_return-Agrees faults = tt

module _ (api : Api) where
  run_program-Agrees :
      (d c f : Ptr) (ps : List Ptr) (w : World)
      → Meets (λ r v. Agrees r) Stopped (run_program api d c f ps w)
  unfolding run_program release_run
  run_program-Agrees d c f ps w =
      Meets-bind (Meets-always (make_inputs api d ps w) (λ a v. tt) (λ e v. tt)) λ l v h.
        Meets-bind (Meets-always (invoke api c f l v) (λ a v. tt) (λ e v. tt)) λ o u g.
          Meets-bind (Meets-always (collect_outputs api d o.0 0 o.1 u) (λ a v. tt) (λ e v. tt))
            λ rs t k. of_Post _ (ground arith)

  -- However `call` ends without undefined behaviour, it gives results only with the status OK,
  -- and no early return escapes it.
  pub call-Agrees :
      (i d : Ptr) (name : Text) (code : List ℕ) (ps : List Ptr) (w : World)
      → Post (λ r v. Agrees r) (λ e v. (s : Status) → e ≢ returned s) (call api i d name code ps w)
  unfolding call
  call-Agrees i d name code ps w = on_return-Agrees (
      Meets-bind (Meets-always (load_program api i d name code w) (λ a v. tt) (λ e v. tt))
        λ c v h. run_program-Agrees d c.0 c.1 ps v)
