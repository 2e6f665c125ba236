-- ===== src/Ownership/Leaving.antt =====
-- A tensor that a run leaves there, with its members and its bytes; the deallocation of another one leaves
-- it (cmake/src/runtime.cc).
use nx_iree.Base.{
  ◌≡◌, ◌≢◌, refl, Option, none, some, ap, ◌∙◌, sym, arith, Bool-cases, Option-cases, inl, inr, ◌==◌,
}
use mathlib.Core.Option
use nx_iree.Machine.{Ptr, null, Tensor, World, Res, ok, stop, fault, use_after_free}
use nx_iree.Machine.Post.{Post}
use nx_iree.Machine.Memory.{get_tensor}
use nx_iree.Tensor.{deallocate}
use nx_iree.Tensor.Lifetime.{deallocated, deallocate_lem}
use nx_iree.Ownership.Heap.{Owned}
use nx_iree.Ownership.Changes.{tensor-le-last, block-le-last}
use nx_iree.Ownership.Rules.{ends, stops, faults, Keeps}
use nx_iree.Ownership.Store.{
  Content, content, store_of, only_here, deallocated-others, deallocated-elsewhere,
}
use nx_iree.Ownership.Release.{Owned-Holds}
use nx_iree.Ownership.Growth.{IsGrown, Grown}

-- A tensor is still there, with the same members, and with the bytes that it had, if any.
abbrev pub Persists : Content → Option Content → Type 0
Persists c o =
    (d : Content) × (o ≡ some d) × (d.members ≡ c.members) × (c.bytes ≢ none → d.bytes ≡ c.bytes)

module _ (w v : World) (h : Owned w) (g : Grown w v) where
  same_copy :
      (p : Ptr) (t : Tensor)
      → w.tensors p ≡ some t
      → t.data_ptr ≢ null
      → v.blocks t.data_ptr ≡ w.blocks t.data_ptr
  same_copy p t e ne =
      let (b, held, len) = h.held p t e ne in
      g.same_blocks t.data_ptr (block-le-last h t.data_ptr b held)

  pub Grown-Persists : (p : Ptr) (c : Content) → store_of w p ≡ some c → Persists c (store_of v p)
  Grown-Persists p c found = elim (Option-cases (w.tensors p)) [
    | inl e ↦ absurd (ground (arith, found))
    | inr (t, e) ↦
        let (d, there, kept) = g.same_tensors p t (tensor-le-last h p t e) e in
        (
          content v.blocks (record t { data_ptr = d }),
          ap (Option.map (content v.blocks)) there,
          ground (arith, found),
          elim (Bool-cases (t.data_ptr == null)) [
            | inl bare ↦ λ ne. absurd (ne (ground (arith, found)))
            | inr held ↦
                λ ne. ground (arith, found, kept (ground arith), same_copy p t e (ground arith))
          ],
        )
  ]

pub deallocate_gone :
    (q : Ptr) (w : World) → w.tensors q ≡ none → deallocate q w ≡ fault use_after_free
unfolding deallocate get_tensor
deallocate_gone q w gone = rw gone

deallocated-kept :
    (q : Ptr) (t : Tensor) (w : World)
    → Owned w
    → w.tensors q ≡ some t
    → (p : Ptr) (c : Content) → q ≢ p
    → store_of w p ≡ some c
    → store_of (deallocated q t w) p ≡ some c
deallocated-kept q t w h here p c other found =
    let changed =
      only_here q w (deallocated q t w) (deallocated-others q t w h here)
        (deallocated-elsewhere q t w h here) p in
    ground (arith, changed, found)

-- What a run leaves of the tensor at `p`, however it ends.
abbrev pub Leaves : Ptr → Content → {A : Type 0} → Res A → Type 0
Leaves p c = Post (λ a v. Persists c (store_of v p)) (λ x v. Persists c (store_of v p))

pub Persists-trans :
    (c d : Content) (o : Option Content)
    → d.members ≡ c.members
    → (c.bytes ≢ none → d.bytes ≡ c.bytes)
    → Persists d o
    → Persists c o
Persists-trans c d o same bytes (x, there, members, kept) =
    (x, there, members ∙ same, λ ne. kept (λ gone. ne (sym (bytes ne) ∙ gone)) ∙ bytes ne)

-- What a run leaves of a tensor that persists.
pub Persists-Leaves :
    {A : Type 0} (r : Res A) (p : Ptr) (c : Content) (w : World)
    → Persists c (store_of w p)
    → ((d : Content) → store_of w p ≡ some d → Leaves p d r)
    → Leaves p c r
Persists-Leaves (ok a v) p c w (d, there, same, bytes) k =
    Persists-trans c d (store_of v p) same bytes (k d there)
Persists-Leaves (stop e v) p c w (d, there, same, bytes) k =
    Persists-trans c d (store_of v p) same bytes (k d there)
Persists-Leaves (fault x) p c w there k = tt

-- Another tensor is deallocated.
pub deallocate-Leaves :
    (q : Ptr) (w : World) (p : Ptr) (c : Content)
    → Owned w
    → store_of w p ≡ some c
    → q ≢ p
    → Leaves p c (deallocate q w)
deallocate-Leaves q w p c h found other = elim (Option-cases (w.tensors q)) [
  | inl gone ↦ rw (deallocate_gone q w gone) tt
  | inr (t, here) ↦
      rw (deallocate_lem q t w (Owned-Holds q t w h here))
        (c, deallocated-kept q t w h here p c other found, refl, λ ne. refl)
]

-- What holds of a run that keeps the tensors.
pub Grown-Leaves :
    {A : Type 0} {r : Res A} (w : World) (p : Ptr) (c : Content)
    → Owned w
    → store_of w p ≡ some c
    → Keeps (IsGrown w) r
    → Leaves p c r
Grown-Leaves w p c h found (ends {w = v} g) = Grown-Persists w v h g p c found
Grown-Leaves w p c h found (stops {w = v} g) = Grown-Persists w v h g p c found
Grown-Leaves w p c h found (faults x) = tt
