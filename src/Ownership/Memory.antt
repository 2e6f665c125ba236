-- ===== src/Ownership/Memory.antt =====
-- The memory operations keep the invariant.
use nx_iree.Base.{
  ℕ, ◌+◌, ◌≤◌, ◌≡◌, inl, inr, Option, none, some, List, [], ◌∷◌, ◌++◌, Bool, Bool-cases,
  Option-cases, length, length-append, drop, arith, leb,
}
use nx_iree.Machine.{Ptr, Cell, Device, Trace, World}
use nx_iree.Machine.Memory.{
  malloc, operator_new, store, load, split_at, get_tensor, get_device, new_device, set_device,
  free_device, determined,
}
use nx_iree.Ownership.Heap.{IsOwned, Owned}
use nx_iree.Ownership.Changes.{add_block, put_block, bump}
use nx_iree.Ownership.Rules.{
  ends, stops, faults, Run, Run-bind, Kept, Keeps, Shape, Holds, Stable, Kept-bind, kept_rules,
}

pub malloc-Kept : (c : Trace → ℕ → Bool) (n : ℕ) (w : World) → Owned w → Kept (malloc c n w)
unfolding malloc
malloc-Kept c n w h = elim (Bool-cases (c w.trace n)) [
  | inl e ↦ rw e (ends (add_block h _))
  | inr e ↦ rw e (ends h)
]

pub operator_new-Kept :
    (c : Trace → ℕ → Bool) (n : ℕ) (w : World) → Owned w → Kept (operator_new c n w)
unfolding operator_new
operator_new-Kept c n w h = search (kept_rules, malloc-Kept)

pub get_tensor-Kept : {J : Shape} (p : Ptr) (w : World) → Holds J w → Keeps J (get_tensor p w)
unfolding get_tensor
get_tensor-Kept p w h = elim (Option-cases (w.tensors p)) [
  | inl e ↦ rw e (faults tt)
  | inr (t, e) ↦ rw e (ends h)
]

pub get_device-Kept : {J : Shape} (p : Ptr) (w : World) → Holds J w → Keeps J (get_device p w)
unfolding get_device
get_device-Kept p w h = elim (Option-cases (w.devices p)) [
  | inl e ↦ rw e (faults tt)
  | inr (t, e) ↦ rw e (ends h)
]

pub IsOwned-Stable : Stable IsOwned
IsOwned-Stable = record { raised = bump }

pub new_device-Kept :
    {J : Shape} → Stable J → (d : Device) (w : World) → Holds J w → Keeps J (new_device d w)
unfolding new_device
new_device-Kept s d w h = ends (s.raised h)

pub set_device-Kept :
    {J : Shape} (p : Ptr) (d : Device) (w : World) → Holds J w → Keeps J (set_device p d w)
unfolding set_device
set_device-Kept p d w h = ends h

pub free_device-Kept : {J : Shape} (p : Ptr) (w : World) → Holds J w → Keeps J (free_device p w)
unfolding free_device
free_device-Kept p w h = ends h

pub determined-Kept :
    {J : Shape} {A : Type 0} (a : Option A) (w : World) → Holds J w → Keeps J (determined a w)
unfolding determined
determined-Kept none w h = (faults tt)
determined-Kept (some a) w h = ends h

pub split_at-Kept :
    {J : Shape} (n : ℕ) (b : List Cell) (w : World) → Holds J w → Keeps J (split_at n b w)
unfolding split_at
split_at-Kept n b w h = search kept_rules

pub load-Kept : {J : Shape} (p n : ℕ) (w : World) → Holds J w → Keeps J (load p n w)
unfolding load
load-Kept p n w h = elim (Option-cases (w.blocks p)) [
  | inl e ↦ rw e (search kept_rules)
  | inr (b, e) ↦ rw e (search kept_rules)
]

-- A write keeps the length of the block.
pub length-overwritten :
    (cs b : List Cell) → length cs ≤ length b → length (cs ++ drop (length cs) b) ≡ length b
length-overwritten cs b le =
    omega (arith, length-append cs (drop (length cs) b), length-drop cs b le)
  where
    length-drop :
        (xs ys : List Cell)
        → length xs ≤ length ys
        → length xs + length (drop (length xs) ys) ≡ length ys
    length-drop [] ys k = omega arith
    length-drop (x ∷ xs) [] k = absurd (omega arith)
    length-drop (x ∷ xs) (y ∷ ys) k = omega (arith, length-drop xs ys (omega arith))

pub store-Kept : (p : Ptr) (cs : List Cell) (w : World) → Owned w → Kept (store p cs w)
unfolding store
store-Kept p cs w h = elim (Option-cases (w.blocks p)) [
  | inl e ↦ rw e (search kept_rules)
  | inr (b, e) ↦ rw e (elim (Bool-cases (leb (length cs) (length b))) [
    | inl le ↦
        let written =
          put_block h p b (cs ++ drop (length cs) b) e (length-overwritten cs b (ground arith)) in
        rw le (search kept_rules)
    | inr gt ↦ rw gt (search kept_rules)
  ])
]

-- Of these, the ones that leave host memory alone.
pub ruleset reading_rules = (
  kept_rules, get_tensor-Kept, get_device-Kept, new_device-Kept, set_device-Kept, free_device-Kept,
  determined-Kept, split_at-Kept, load-Kept,
)

pub ruleset memory_rules =
    (reading_rules, malloc-Kept, operator_new-Kept, store-Kept, IsOwned-Stable)
