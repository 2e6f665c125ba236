-- ===== src/Ownership/Persistence.antt =====
-- What becomes of a tensor while the functions of c_src/nx_iree.cc are called, until it is itself handed
-- to `deallocate_buffer`.
use nx_iree.Base.{
  ◌≡◌, ◌≢◌, refl, some, List, [], ◌∷◌, Text, codes, text_eq, text_eq_iff, subst, ap, ◌∙◌,
  Bool-cases, Option-cases, inl, inr,
}
use nx_iree.Machine.{Ptr, World, M, ok}
use nx_iree.Machine.Post.{Post, Meets, of_Post, to_Post, Meets-bind}
use nx_iree.Api.{Api}
use nx_iree.Erlang.{Env, tensor}
use nx_iree.Tensor.{deallocate}
use nx_iree.Nif.Terms.{argument}
use nx_iree.Nif.Tensors.{deallocate_buffer}
use nx_iree.Nif.Program.{dispatch, table_0, table_1, table_2, table_5}
use nx_iree.Ownership.Heap.{Owned}
use nx_iree.Ownership.Rules.{Kept-Owned}
use nx_iree.Ownership.Store.{Content, store_of}
use nx_iree.Ownership.Histories.{History, History-IsOwned, dispatch-Kept}
use nx_iree.Ownership.Growth.{Grown-refl}
use nx_iree.Ownership.Frames.{dispatch-Grown}
use nx_iree.Ownership.Leaving.{Persists, Leaves, deallocate-Leaves, Grown-Leaves, Persists-Leaves}

-- A call by which the tensor at `p` is given up.
abbrev pub Releases : (e : Env) → Text → List e.Term → Ptr → Type 0
Releases e name args p =
    (name ≡ codes "deallocate_buffer")
    × (a0 : e.Term) × (args ≡ a0 ∷ [])
    × (e.get_resource tensor a0 ≡ some p)

module _ (api : Api) (e : Env) where
  open e use {Term}

  deallocate_buffer-Persists :
      (a0 : Term) (w : World) (p : Ptr) (c : Content)
      → Owned w
      → store_of w p ≡ some c
      → e.get_resource tensor a0 ≢ some p
      → Post
          (λ r v. Persists c (store_of v p))
          (λ x v. Persists c (store_of v p))
          (deallocate_buffer api e (a0 ∷ []) w)
  unfolding deallocate_buffer argument
  deallocate_buffer-Persists a0 w p c h found other =
      elim (Option-cases (e.get_resource tensor a0)) [
        | inl x ↦ rw x (c, found, refl, λ ne. refl)
        | inr (q, x) ↦
            let kept = deallocate-Leaves q w p c h found (λ same. other (x ∙ ap some same)) in
            rw x (to_Post (Meets-bind (of_Post (deallocate q w) kept) λ _ v k. Meets.ends k))
      ]

  -- The function that is found under the name.
  dispatch_deallocate :
      (args : List Term) (m : M Term)
      → dispatch api e (codes "deallocate_buffer") args ≡ some m
      → (a0 : Term) × (args ≡ a0 ∷ []) × (m ≡ deallocate_buffer api e (a0 ∷ []))
  unfolding dispatch table_0 table_1 table_2 table_5 text_eq
  dispatch_deallocate [] m found = absurd (cc)
  dispatch_deallocate (a0 ∷ []) m found = (a0, refl, cc)
  dispatch_deallocate (a0 ∷ a1 ∷ []) m found = absurd (cc)
  dispatch_deallocate (a0 ∷ a1 ∷ a2 ∷ []) m found = absurd (cc)
  dispatch_deallocate (a0 ∷ a1 ∷ a2 ∷ a3 ∷ []) m found = absurd (cc)
  dispatch_deallocate (a0 ∷ a1 ∷ a2 ∷ a3 ∷ a4 ∷ []) m found = absurd (cc)
  dispatch_deallocate (a0 ∷ a1 ∷ a2 ∷ a3 ∷ a4 ∷ a5 ∷ args) m found = absurd (cc)

  dispatch-Persists :
      (w : World) (name : Text) (args : List Term) (m : M Term) (p : Ptr) (c : Content)
      → Owned w
      → dispatch api e name args ≡ some m
      → store_of w p ≡ some c
      → ¬ Releases e name args p
      → Post (λ t v. Persists c (store_of v p)) (λ x v. Persists c (store_of v p)) (m w)
  dispatch-Persists w name args m p c h found there spared =
      elim (Bool-cases (text_eq name (codes "deallocate_buffer"))) [
        | inl is ↦
            let same = (text_eq_iff name (codes "deallocate_buffer")).0 is in
            let (a0, alone, run) =
              dispatch_deallocate args m (subst (λ n. dispatch api e n args ≡ some m) same found) in
            rw run
              (deallocate_buffer-Persists a0 w p c h there λ given. spared (same, a0, alone, given))
        | inr other ↦
            Grown-Leaves w p c h there
              (dispatch-Grown api e name args w other (Grown-refl w h) found)
      ]

  -- In every state that a history of calls leads to, a call of any exported function, on any
  -- arguments and whatever the library answers, leaves every tensor there with the members that
  -- it had, and with the bytes that it had, if any, unless the function is `deallocate_buffer`
  -- and the tensor its argument; also where the call ends by an exception, but not where it
  -- runs into undefined behaviour.
  pub History-Persists :
      (w : World) (name : Text) (args : List Term) (m : M Term) (p : Ptr) (c : Content)
      → History api e w
      → dispatch api e name args ≡ some m
      → store_of w p ≡ some c
      → ¬ Releases e name args p
      → Post (λ t v. Persists c (store_of v p)) (λ x v. Persists c (store_of v p)) (m w)
  History-Persists w name args m p c h found there spared =
      dispatch-Persists w name args m p c (History-IsOwned api e w h) found there spared

  -- Calls of exported functions, each run to its end, none of which gives up the tensor at `p`.
  pub data Sparing (p : Ptr) (w : World) : World → Type 0 where
    begin : Sparing p w w
    next :
        {u v : World} {m : M Term} {term : Term} (name : Text) (args : List Term)
        → Sparing p w u
        → dispatch api e name args ≡ some m
        → ¬ Releases e name args p
        → m u ≡ ok term v
        → Sparing p w v

  pub Sparing-Owned : {p : Ptr} {w v : World} → Owned w → Sparing p w v → Owned v
  Sparing-Owned h begin = h
  Sparing-Owned h (next {u = u} name args s found spared run) =
      Kept-Owned (dispatch-Kept api e name args u (Sparing-Owned h s) found) run

  pub Sparing-Persists :
      (p : Ptr) (w v : World) (c : Content)
      → Owned w
      → Sparing p w v
      → store_of w p ≡ some c
      → Persists c (store_of v p)
  Sparing-Persists p w v c h begin found = (c, found, refl, λ ne. refl)
  Sparing-Persists p w v c h (next {u = u} {m = m} name args s run spared ended) found =
      subst (Leaves p c) ended (
        Persists-Leaves (m u) p c u (Sparing-Persists p w u c h s found)
          λ d there. dispatch-Persists u name args m p d (Sparing-Owned h s) run there spared)
