-- ===== src/Ownership/Rules.antt =====
-- Runs that keep an invariant of host memory and free nothing twice: one rule for each way to build a
-- run. The invariant says nothing of the trace, nor of the devices.
use nx_iree.Base.{suc, ◌≡◌, ◌≢◌, subst, Bool, true, false, if◌then◌else◌}
use nx_iree.Machine.{
  Ptr, Exit, Fault, null_deref, out_of_bounds, use_after_free, double_free, uninitialised, Res, ok,
  stop, fault, Status, on_return, returned, bad_alloc, runtime_error, M, World, and_then,
}
use nx_iree.Ownership.Heap.{Blocks, Tensors, Buffers, IsOwned}

-- Any undefined behaviour but a block that is freed twice.
abbrev pub NoDoubleFree : Fault → Type 0
NoDoubleFree double_free = ⊥
NoDoubleFree x = Unit {0}

abbrev pub Shape : Type 1
Shape = Blocks → Tensors → Buffers → Ptr → Type 0

abbrev pub Holds : Shape → World → Type 0
Holds J w = J w.blocks w.tensors w.buffers w.last

-- A run after which `P` holds where it ends, and the invariant where it stops early.
pub data Run (J : Shape) {A : Type 0} (P : A → World → Type 0) : Res A → Type 0 where
  ends : {a : A} {w : World} → P a w → Run J P (ok a w)
  stops : {e : Exit} {w : World} → Holds J w → Run J P (stop e w)
  faults : {x : Fault} → NoDoubleFree x → Run J P (fault x)

abbrev pub Keeps : (J : Shape) {A : Type 0} → Res A → Type 0
Keeps J = Run J (λ a v. Holds J v)

abbrev pub Kept : {A : Type 0} → Res A → Type 0
Kept = Keeps IsOwned

-- An invariant that new objects of other kinds do not disturb.
pub record Stable (J : Shape) : Type 0 where
  pub raised :
      {blocks : Blocks} {tensors : Tensors} {buffers : Buffers} {last : Ptr}
      → J blocks tensors buffers last
      → J blocks tensors buffers (suc last)

pub Run-bind :
    {J : Shape} {A B : Type 0} {P : A → World → Type 0} {Q : B → World → Type 0} {r : Res A}
    {f : A → M B}
    → Run J P r
    → ((a : A) (w : World) → P a w → Run J Q (f a w))
    → Run J Q (and_then r f)
Run-bind (ends p) k = k _ _ p
Run-bind (stops h) k = stops h
Run-bind (faults x) k = faults x

module _ {J : Shape} {A : Type 0} where
  pub Kept-ok : {a : A} {w : World} → Holds J w → Keeps J (ok a w)
  Kept-ok h = ends h

  pub Kept-stop : {e : Exit} {w : World} → Holds J w → Keeps J {A = A} (stop e w)
  Kept-stop h = stops h

  pub Kept-null_deref : Keeps J {A = A} (fault null_deref)
  Kept-null_deref = faults tt

  pub Kept-out_of_bounds : Keeps J {A = A} (fault out_of_bounds)
  Kept-out_of_bounds = faults tt

  pub Kept-use_after_free : Keeps J {A = A} (fault use_after_free)
  Kept-use_after_free = faults tt

  pub Kept-uninitialised : Keeps J {A = A} (fault uninitialised)
  Kept-uninitialised = faults tt

  pub Kept-if :
      (b : Bool) (m n : M A) (w : World)
      → Keeps J (m w)
      → Keeps J (n w)
      → Keeps J ((if b then m else n) w)
  Kept-if true m n w km kn = km
  Kept-if false m n w km kn = kn

  pub Kept-bind :
      {B : Type 0} {r : Res A} {f : A → M B}
      → Keeps J r
      → ((a : A) (w : World) → Holds J w → Keeps J (f a w))
      → Keeps J (and_then r f)
  Kept-bind k g = Run-bind k g

  pub Run-mono :
      {P Q : A → World → Type 0} {r : Res A}
      → Run J P r
      → ((a : A) (w : World) → P a w → Q a w)
      → Run J Q r
  Run-mono (ends p) f = ends (f _ _ p)
  Run-mono (stops h) f = stops h
  Run-mono (faults x) f = faults x

  pub Run-on_return :
      {P : A → World → Type 0} {r : Res A} (f : Status → A)
      → ((s : Status) (w : World) → Holds J w → P (f s) w)
      → Run J P r
      → Run J P (on_return f r)
  Run-on_return f k (ends p) = ends p
  Run-on_return f k (stops {e = returned s} {w = w} h) = ends (k s w h)
  Run-on_return f k (stops {e = bad_alloc} h) = stops h
  Run-on_return f k (stops {e = runtime_error m} h) = stops h
  Run-on_return f k (faults x) = faults x

  pub Kept-on_return : (f : Status → A) (r : Res A) → Keeps J r → Keeps J (on_return f r)
  Kept-on_return f r k = Run-on_return f (λ s w h. h) k

  -- What is known of a run by the way it ended.
  pub Kept-Owned : {a : A} {v : World} {r : Res A} → Keeps J r → r ≡ ok a v → Holds J v
  Kept-Owned k e = ended (subst (Keeps J) e k)
    where
      ended : {a : A} {v : World} → Keeps J (ok a v) → Holds J v
      ended (ends h) = h

  pub Kept-NoDoubleFree : {r : Res A} → Keeps J r → r ≢ fault double_free
  Kept-NoDoubleFree k e = faulted (subst (Keeps J) e k)
    where
      faulted : Keeps J {A = A} (fault double_free) → ⊥
      faulted (faults x) = x

pub ruleset kept_rules = (
  Kept-ok, Kept-stop, Kept-null_deref, Kept-out_of_bounds, Kept-use_after_free, Kept-uninitialised,
  Kept-if, Kept-bind,
)
