-- ===== src/Machine/Laws.antt =====
-- What the memory operations do where they succeed.
use nx_iree.Base.{
  ℕ, suc, ◌≡◌, refl, ◌≢◌, Option, none, some, List, [], ◌∷◌, ◌++◌, Bool, true, length, take,
  replicate, drop, ◌≤◌, ap, fun_ext, arith, take-append_length, drop-append_length, length-append,
  drop-length, length-replicate, take-length, append-nil,
}
use nx_iree.Machine.{Ptr, null, Cell, World, host_alloc, Trace, ok, update}
use nx_iree.Machine.Memory.{malloc, operator_new, load, store, split_at}

-- The state after a block of `n` bytes was allocated.
abbrev pub with_block : World → ℕ → List Cell → World
with_block w n b = record w {
  last = suc w.last;
  trace = host_alloc n ∷ w.trace;
  blocks = update w.blocks (suc w.last) (some b);
}

module _ (can_alloc : Trace → ℕ → Bool) (n : ℕ) (w : World)
    (granted : can_alloc w.trace n ≡ true) where
  pub malloc-ok : malloc can_alloc n w ≡ ok (suc w.last) (with_block w n (replicate n none))
  unfolding malloc
  malloc-ok = rw granted

  pub operator_new-ok :
      operator_new can_alloc n w ≡ ok (suc w.last) (with_block w n (replicate n none))
  unfolding operator_new
  operator_new-ok = ground arith

pub split_at-append :
    (b rest : List Cell) (n : ℕ) (w : World)
    → length b ≡ n
    → split_at n (b ++ rest) w ≡ ok (b, rest) w
unfolding split_at
split_at-append b rest n w h =
    rw (← h)
      (ground (arith, length-append b rest, take-append_length b rest, drop-append_length b rest))

pub load-ok :
    (p : Ptr) (n : ℕ) (b : List Cell) (w : World)
    → p ≢ null
    → w.blocks p ≡ some b
    → n ≤ length b
    → load p n w ≡ ok (take n b) w
unfolding load
load-ok p n b w ne h le = ground arith

update_same :
    {A : Type 0} (f : Ptr → Option A) (p : Ptr) (v : Option A) → f p ≡ v → f ≡ update f p v
update_same f p v h = fun_ext (λ q. ground arith)

drop_all : {A : Type 0} (xs ys : List A) → length xs ≡ length ys → drop (length xs) ys ≡ []
drop_all xs ys h = rw h (drop-length ys)

pub store-ok :
    (p : Ptr) (cs b : List Cell) (w : World)
    → p ≢ null
    → w.blocks p ≡ some b
    → length cs ≡ length b
    → store p cs w ≡ ok tt (record w { blocks = update w.blocks p (some cs) })
unfolding store
store-ok p [] b w ne h le =
    ap (λ (f : Ptr → Option (List Cell)). ok tt (record w { blocks = f }))
      (update_same w.blocks p (some []) (ground arith))
store-ok p (c ∷ cs) b w ne h le = ground (arith, drop_all (c ∷ cs) b le, append-nil cs)

-- A fresh block is read as it stands.
pub whole_block :
    (p : Ptr) (n : ℕ) (w : World)
    → p ≢ null
    → w.blocks p ≡ some (replicate n none)
    → load p n w ≡ ok (replicate n none) w
unfolding load
whole_block p n w ne h =
    ground (arith, length-replicate {0} {A = Cell} n none, take_all (replicate n none) n)
  where
    take_all : (b : List Cell) (k : ℕ) → length b ≡ k → take k b ≡ b
    take_all b k e = rw (← e) (take-length b)

pub split_at-all :
    (b : List Cell) (n : ℕ) (w : World) → length b ≡ n → split_at n b w ≡ ok (b, []) w
unfolding split_at
split_at-all b n w h = rw (← h) (ground (arith, take-length b, drop-length b))

pub load-all :
    (p : Ptr) (n : ℕ) (b : List Cell) (w : World)
    → p ≢ null
    → w.blocks p ≡ some b
    → length b ≡ n
    → load p n w ≡ ok b w
unfolding load
load-all p n b w ne hb h = rw (← h) (ground (arith, take-length b, nil_of_length b))
  where
    nil_of_length : (c : List Cell) → length c ≡ 0 → c ≡ []
    nil_of_length [] e = refl
    nil_of_length (x ∷ c) e = absurd (omega arith)
