-- ===== src/Call/Balance.antt =====
-- The references that `call` keeps: to modules, to the context and to the two lists.
use nx_iree.Base.{
  ℕ, zero, suc, ◌+◌, ◌≡◌, ◌≢◌, ◌⊎◌, inl, inr, length, refl, some, Bool, codes, Option, none, List,
  [], ◌∷◌, Text, Option-cases, arith, ◌==◌, if◌then◌else◌,
}
use mathlib.Core.Option.{get_or}
use nx_iree.Machine.{
  Ptr, null, Status, ok_status, Cell, World, returned, bad_alloc, runtime_error, Res, Trace,
  module_kind, context_kind, list_kind, on_return,
}
use nx_iree.Machine.Post.{Post, Meets, ends, of_Post, stops, faults, Meets-bind, Meets-mono}
use nx_iree.Machine.Ledger.{Owed, Settled, acquired, disposed}
use nx_iree.Machine.Memory.{get_tensor, load, determined}
use nx_iree.Api.{Api, Created}
use nx_iree.Tensor.{run_if_cuda_enabled}
use nx_iree.Call.Outputs.{output_tensor-null, output_tensor-view, output_dims}
use nx_iree.Call.{
  create_or_return, perform_or_return, load_program, input_ref, push_inputs, output_tensor,
  collect_outputs, run_program, make_inputs, invoke, release_run, call, push_ref, new_list,
}

-- One reference, if the pointer is not null.
abbrev one_of : Ptr → ℕ
one_of p = if p == null then 0 else 1

-- No reference to a module, a context or a list was dropped.
pub record NoneDropped (w v : World) : Type 0 where
  pub modules : disposed module_kind v.trace ≡ disposed module_kind w.trace
  pub contexts : disposed context_kind v.trace ≡ disposed context_kind w.trace
  pub lists : disposed list_kind v.trace ≡ disposed list_kind w.trace

-- A run that is handed so many references, and drops none before it stops.
abbrev Keeps : {A : Type 0} → (A → ℕ) → (A → ℕ) → (A → ℕ) → World → Res A → Type 0
Keeps m c l w =
    Meets
      (λ a v. Owed module_kind (m a) w v × Owed context_kind (c a) w v × Owed list_kind (l a) w v)
      (λ e v. NoneDropped w v)

abbrev nothing : {A : Type 0} → A → ℕ
nothing a = 0

-- The library's two kinds of modules are not null when they were created.
abbrev pub HandsModules : Api → Type 0
HandsModules api =
    ((t : Trace) (i d : Ptr)
      → (api.hal_module_create t i d).0 ≡ ok_status
      → get_or (api.hal_module_create t i d).1 null ≢ null)
    × ((t : Trace) (i : Ptr) (code : List ℕ)
        → (api.bytecode_module_create t i code).0 ≡ ok_status
        → get_or (api.bytecode_module_create t i code).1 null ≢ null)

module _ (api : Api) where
  -- The steps of `load_program`.
  enter-Keeps :
      (test : Bool) (d : Option Ptr) (w : World)
      → Keeps nothing nothing nothing w (run_if_cuda_enabled api test d w)
  unfolding run_if_cuda_enabled determined acquired disposed
  enter-Keeps test d w = of_Post _ (ground arith)

  -- A module is handed out that is not null.
  module-Keeps :
      (name : Text) (args : List ℕ) (bytes : List Cell) (q : Trace → Created) (w : World)
      → ((t : Trace) → (q t).0 ≡ ok_status → get_or (q t).1 null ≢ null)
      → Keeps (λ p. 1) nothing nothing w (create_or_return module_kind name args bytes q w)
  unfolding create_or_return acquired disposed
  module-Keeps name args bytes q w hands = of_Post _ (ground (arith, hands w.trace))

  context-Keeps :
      (name : Text) (args : List ℕ) (bytes : List Cell) (q : Trace → Created) (w : World)
      → Keeps nothing one_of nothing w (create_or_return context_kind name args bytes q w)
  unfolding create_or_return acquired disposed
  context-Keeps name args bytes q w = of_Post _ (ground arith)

  perform-Keeps :
      (name : Text) (args : List ℕ) (q : Trace → Status) (w : World)
      → Keeps nothing nothing nothing w (perform_or_return name args q w)
  unfolding perform_or_return acquired disposed
  perform-Keeps name args q w = of_Post _ (ground arith)

  -- Counts of modules and contexts from `w` on, from those from `v` on.
  further :
      {A : Type 0} (m m' c c' : A → ℕ) {r : Res A} (i j : ℕ) (w v : World)
      → Owed module_kind i w v × Owed context_kind j w v × Owed list_kind 0 w v
      → Keeps m c nothing v r
      → ((a : A) → (m' a ≡ i + m a) × (c' a ≡ j + c a))
      → Keeps m' c' nothing w r
  further m m' c c' i j w v h keeps e =
      Meets-mono keeps (λ a u p. omega (arith, (e a).0, (e a).1)) (λ x u p. omega arith)

  load_program-Keeps :
      (i d : Ptr) (name : Text) (code : List ℕ) (w : World)
      → HandsModules api
      → Keeps (λ r. 2) (λ r. one_of r.0) nothing w (load_program api i d name code w)
  unfolding load_program
  load_program-Keeps i d name code w hands = Meets-bind (enter-Keeps _ _ w) λ x v0 h0.
      Meets-bind
        (further (λ p. 1) (λ p. 1) nothing nothing 0 0 w v0 h0
          (module-Keeps _ _ _ (λ t. api.hal_module_create t i d) v0 (λ t. hands.0 t i d))
          (λ a. (refl, refl)))
        λ hal v1 h1.
          Meets-bind
            (further (λ p. 1) (λ p. 2) nothing nothing 1 0 w v1 h1
              (module-Keeps _ _ _ (λ t. api.bytecode_module_create t i code) v1
                (λ t. hands.1 t i code))
              (λ a. (refl, refl)))
            λ bytecode v2 h2.
              Meets-bind
                (further nothing (λ p. 2) one_of one_of 2 0 w v2 h2
                  (context-Keeps (codes "iree_vm_context_create_with_modules")
                    (i ∷ hal ∷ bytecode ∷ []) [] (λ t. api.context_create t i hal bytecode) v2)
                  (λ a. (refl, omega arith)))
                λ context v3 h3.
                  Meets-bind
                    (further nothing (λ p. 2) nothing (λ p. one_of context) 2 (one_of context) w v3
                      h3
                      (perform-Keeps (codes "iree_vm_context_resolve_function") (context ∷ [])
                        (λ t. (api.resolve_function t context (codes "module.main")).0) v3)
                      (λ a. (refl, omega arith)))
                    λ y v4 h4. ends h4

  input_ref-Keeps : (d p : Ptr) (w : World) → Keeps nothing nothing nothing w (input_ref api d p w)
  unfolding input_ref get_tensor load acquired disposed
  input_ref-Keeps d p w = of_Post _ (ground arith)

  push_ref-Keeps :
      (l ref : Ptr) (w : World) → Keeps nothing nothing nothing w (push_ref api l ref w)
  unfolding push_ref acquired disposed
  push_ref-Keeps l ref w = of_Post _ (ground arith)

  new_list-Keeps : (n : ℕ) (w : World) → Keeps nothing nothing one_of w (new_list api n w)
  unfolding new_list acquired disposed
  new_list-Keeps n w = of_Post _ (ground arith)

  invoke-Keeps :
      (c f l : Ptr) (w : World) → Keeps nothing nothing (λ r. one_of r.0) w (invoke api c f l w)
  unfolding invoke acquired disposed
  invoke-Keeps c f l w = of_Post _ (ground arith)

  -- Counts from `w` on, from those from `v` on.
  since :
      {A : Type 0} (l l' : A → ℕ) {r : Res A} (n : ℕ) (w v : World)
      → Owed module_kind 0 w v × Owed context_kind 0 w v × Owed list_kind n w v
      → Keeps nothing nothing l v r
      → ((a : A) → l' a ≡ n + l a)
      → Keeps nothing nothing l' w r
  since l l' n w v h keeps e = Meets-mono keeps (λ a u p. omega (arith, e a)) (λ x u p. omega arith)

  push_inputs-Keeps :
      (d l : Ptr) (ps : List Ptr) (w : World)
      → Keeps nothing nothing nothing w (push_inputs api d l ps w)
  unfolding push_inputs
  push_inputs-Keeps d l [] w = ends (omega arith)
  push_inputs-Keeps d l (p ∷ ps) w = Meets-bind (input_ref-Keeps d p w) λ ref v h.
      Meets-bind (since nothing nothing 0 w v h (push_ref-Keeps l ref v) (λ a. omega arith))
        λ t u g. since nothing nothing 0 w u g (push_inputs-Keeps d l ps u) (λ a. omega arith)

  make_inputs-Keeps :
      (d : Ptr) (ps : List Ptr) (w : World)
      → Keeps nothing nothing one_of w (make_inputs api d ps w)
  unfolding make_inputs
  make_inputs-Keeps d ps w = Meets-bind (new_list-Keeps (length ps) w) λ l v h.
      Meets-bind
        (since nothing (λ a. one_of l) (one_of l) w v h (push_inputs-Keeps d l ps v)
          (λ a. omega arith))
        λ r u g. ends g

  output_tensor-Keeps :
      (d l : Ptr) (i : ℕ) (w : World) → Keeps nothing nothing nothing w (output_tensor api d l i w)
  unfolding acquired disposed
  output_tensor-Keeps d l i w = of_Post _ (
      ground (
        arith,
        output_tensor-null api d l i w,
        output_tensor-view api d l i w,
        Option-cases (output_dims api d l i w),
      ))

  collect_outputs-Keeps :
      (d l : Ptr) (i left : ℕ) (w : World)
      → Keeps nothing nothing nothing w (collect_outputs api d l i left w)
  unfolding collect_outputs
  collect_outputs-Keeps d l i zero w = ends (omega arith)
  collect_outputs-Keeps d l i (suc left) w = Meets-bind (output_tensor-Keeps d l i w) λ p v h.
      Meets-bind
        (since nothing nothing 0 w v h (collect_outputs-Keeps d l (suc i) left v)
          (λ a. omega arith))
        λ rs u g. ends g

  abbrev with_results : List Ptr → Status × Option (List Ptr)
  with_results rs = (ok_status, some rs)

  given : (rs : List Ptr) → (qs : List Ptr) × (with_results rs ≡ (ok_status, some qs))
  given rs = (rs, refl)

  run_program-Settled :
      (d c f : Ptr) (ps : List Ptr) (w : World)
      → Meets
          (λ r v.
            (rs : List Ptr) × (r ≡ (ok_status, some rs))
            × Owed module_kind 0 w v
            × (acquired context_kind v.trace ≡ acquired context_kind w.trace)
            × (disposed context_kind v.trace ≡ disposed context_kind w.trace + one_of c)
            × Settled list_kind w v)
          (λ e v. NoneDropped w v)
          (run_program api d c f ps w)
  unfolding run_program release_run acquired disposed
  run_program-Settled d c f ps w = Meets-bind (make_inputs-Keeps d ps w) λ l v h.
      Meets-bind
        (since (λ o. one_of o.0) (λ o. one_of l + one_of o.0) (one_of l) w v h
          (invoke-Keeps c f l v) (λ a. omega arith))
        λ o u g.
          Meets-bind
            (since nothing (λ a. one_of l + one_of o.0) (one_of l + one_of o.0) w u g
              (collect_outputs-Keeps d o.0 0 o.1 u) (λ a. omega arith))
            λ rs t k. of_Post _ (ground (arith, given rs))

  abbrev Balanced : World → Status × Option (List Ptr) → World → Type 0
  Balanced w r v =
      ((rs : List Ptr) × (r ≡ (ok_status, some rs))
        × Owed module_kind 2 w v
        × Settled context_kind w v
        × Settled list_kind w v)
      ⊎ ((r.1 ≡ none) × NoneDropped w v)

  on_return-Balanced :
      (w : World) {r : Res (Status × Option (List Ptr))}
      → Meets (Balanced w) (λ e v. NoneDropped w v) r
      → Post (Balanced w) (λ e v. NoneDropped w v) (on_return (λ status. (status, none)) r)
  on_return-Balanced w (ends p) = p
  on_return-Balanced w (stops {e = returned s} q) = inr (refl, q)
  on_return-Balanced w (stops {e = bad_alloc} q) = q
  on_return-Balanced w (stops {e = runtime_error m} q) = q
  on_return-Balanced w faults = tt

  -- When `call` gives results, its status is OK, it has given back its context and its two
  -- lists, and keeps a reference to each of both modules; when it gives none, whatever its
  -- status, or ends by an exception, it has dropped no module, context or list. The library
  -- hands out modules that are not null.
  pub call-balance :
      HandsModules api
      → (i d : Ptr) (name : Text) (code : List ℕ) (ps : List Ptr) (w : World)
      → Post
          (λ r v.
            ((rs : List Ptr) × (r ≡ (ok_status, some rs))
              × Owed module_kind 2 w v
              × Settled context_kind w v
              × Settled list_kind w v)
            ⊎ ((r.1 ≡ none) × NoneDropped w v))
          (λ e v. NoneDropped w v)
          (call api i d name code ps w)
  unfolding call
  call-balance hands i d name code ps w = on_return-Balanced w (
      Meets-bind (load_program-Keeps i d name code w hands) λ c v h.
        Meets-mono (run_program-Settled d c.0 c.1 ps v)
          (λ r u (rs, e, m, a, x, l). inl (rs, e, omega arith, omega arith, omega arith))
          (λ e u p. omega arith))
