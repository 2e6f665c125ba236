-- ===== src/Ownership/Store.antt =====
-- The abstract view of the tensors: what a tensor holds, without the place where it holds it.
use nx_iree.Base.{
  ap, subst, ◌≡◌, refl, ◌≢◌, ◌⊎◌, inl, inr, Option, none, some, List, Bool-cases, Option-cases,
  arith, ◌==◌, length, if◌then◌else◌,
}
use mathlib.Core.Option
use nx_iree.Machine.{Ptr, null, Cell, Tensor, World, M, pure, ◌>>◌, update}
use nx_iree.Api.{Api}
use nx_iree.Tensor.{deallocate, delete_tensor, serialize, wire}
use nx_iree.Tensor.Lifetime.{deallocated, deallocate_lem, delete_tensor_lem}
use nx_iree.Machine.Post.{Returns, returns}
use nx_iree.Ownership.Heap.{Owned, Blocks}
use nx_iree.Ownership.Release.{Owned-Holds}

-- The members of a tensor but its pointer, and the bytes behind that.
pub record Content : Type 0 where
  pub members : Tensor
  pub bytes : Option (List Cell)

abbrev pub content : Blocks → Tensor → Content
content blocks t = record {
  members = record t { data_ptr = null };
  bytes = if t.data_ptr == null then none else blocks t.data_ptr;
}

abbrev pub Store : Type 0
Store = Ptr → Option Content

abbrev pub store_of : World → Store
store_of w p = Option.map (content w.blocks) (w.tensors p)

-- The calls on a tensor that is there.
pub data Method : Type 0 where
  deallocated_at deleted_at serialized_at : Ptr → Method

abbrev pub target : Method → Ptr
target (deallocated_at p) = p
target (deleted_at p) = p
target (serialized_at p) = p

abbrev pub run : Api → Method → M (Option (List Cell))
run api (deallocated_at p) = do deallocate p; pure none
run api (deleted_at p) = do delete_tensor p; pure none
run api (serialized_at p) = serialize api p

-- Only what the store holds at `p` changes.
abbrev pub Becomes : Store → Ptr → Option Content → Store → Type 0
Becomes s p c v = (q : Ptr) → v q ≡ update s p c q

-- What a call may answer, and what it does to the store: a tensor without data is given bytes of its
-- size when it is serialised, whether or not they are sent, or is left as it was.
pub data Step (s v : Store) : Method → Option (List Cell) → Type 0 where
  emptied :
      (p : Ptr) (c : Content)
      → s p ≡ some c
      → Becomes s p
          (some (record { members = record c.members { buffer_view = null }; bytes = none }))
          v
      → Step s v (deallocated_at p) none
  removed : (p : Ptr) → Becomes s p none v → Step s v (deleted_at p) none
  sent :
      (p : Ptr) (c : Content) (b : List Cell)
      → s p ≡ some c
      → c.bytes ≡ some b
      → length b ≡ c.members.size
      → Becomes s p (some c) v
      → Step s v (serialized_at p) (some (wire c.members b))
  fetched :
      (p : Ptr) (c : Content) (b : List Cell) (r : Option (List Cell))
      → s p ≡ some c
      → c.bytes ≡ none
      → length b ≡ c.members.size
      → Becomes s p (some (record c { bytes = some b })) v
      → (r ≡ none) ⊎ (r ≡ some (wire c.members b))
      → Step s v (serialized_at p) r
  refused :
      (p : Ptr) (c : Content)
      → s p ≡ some c
      → c.bytes ≡ none
      → Becomes s p (some c) v
      → Step s v (serialized_at p) none

-- A call that leaves the other tensors and their copies alone changes the store in one place.
module _ (this : Ptr) (w v : World) (others : (q : Ptr) → q ≢ this → v.tensors q ≡ w.tensors q)
    (elsewhere : (q : Ptr) (u : Tensor)
      → w.tensors q ≡ some u
      → q ≢ this
      → u.data_ptr ≢ null
      → v.blocks u.data_ptr ≡ w.blocks u.data_ptr) where
  content-same :
      (q : Ptr) (u : Tensor)
      → w.tensors q ≡ some u
      → q ≢ this
      → content v.blocks u ≡ content w.blocks u
  content-same q u there ne = elim (Bool-cases (u.data_ptr == null)) [
    | inl e ↦ rw e refl
    | inr e ↦ rw (e, elsewhere q u there ne (ground arith)) refl
  ]

  pub only_here : Becomes (store_of w) this (store_of v this) (store_of v)
  only_here q = elim (Bool-cases (this == q)) [
    | inl e ↦ rw e (ground arith)
    | inr e ↦ elim (Option-cases (w.tensors q)) [
      | inl n ↦ rw (e, others q (ground arith), n) refl
      | inr (u, there) ↦
          rw (e, others q (ground arith), there, content-same q u there (ground arith)) refl
    ]
  ]

module _ (this : Ptr) (t : Tensor) (w : World) (h : Owned w) (here : w.tensors this ≡ some t) where
  pub deallocated-others : (q : Ptr) → q ≢ this → (deallocated this t w).tensors q ≡ w.tensors q
  deallocated-others q ne = ground arith

  pub deallocated-elsewhere :
      (q : Ptr) (u : Tensor)
      → w.tensors q ≡ some u
      → q ≢ this
      → u.data_ptr ≢ null
      → (deallocated this t w).blocks u.data_ptr ≡ w.blocks u.data_ptr
  deallocated-elsewhere q u there ne nn = ground (arith, h.apart this q t u here there)

  deallocated-content :
      store_of (deallocated this t w) this
      ≡ some (record { members = record t { data_ptr = null; buffer_view = null }; bytes = none })
  deallocated-content = ground (arith, here)

  pub deallocate-Step :
      Returns
        (λ r v. Step (store_of w) (store_of v) (deallocated_at this) r)
        ((do deallocate this; pure none) w)
  deallocate-Step = rw (deallocate_lem this t w (Owned-Holds this t w h here)) (
      returns (
        emptied this (content w.blocks t) (ap (Option.map (content w.blocks)) here) (
          subst (λ c. Becomes (store_of w) this c (store_of (deallocated this t w)))
            deallocated-content
            (only_here this w (deallocated this t w) deallocated-others deallocated-elsewhere))))

  abbrev pub deleted : World
  deleted = record (deallocated this t w) {
    tensors = update (deallocated this t w).tensors this none;
  }

  pub deleted-others : (q : Ptr) → q ≢ this → deleted.tensors q ≡ w.tensors q
  deleted-others q ne = ground (arith, deallocated-others q ne)

  deleted-content : store_of deleted this ≡ none
  deleted-content = ground arith

  pub delete_tensor-Step :
      Returns
        (λ r v. Step (store_of w) (store_of v) (deleted_at this) r)
        ((do delete_tensor this; pure none) w)
  delete_tensor-Step = rw (delete_tensor_lem this t w (Owned-Holds this t w h here)) (
      returns (
        removed this (
          subst (λ c. Becomes (store_of w) this c (store_of deleted)) deleted-content
            (only_here this w deleted deleted-others deallocated-elsewhere))))
