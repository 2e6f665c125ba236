-- ===== src/Machine/Post.antt =====
-- Postconditions of a run, by the way it ends.
use nx_iree.Base.{◌≡◌}
use nx_iree.Machine.{Status, on_return, World, Exit, Fault, Res, ok, stop, fault, M, and_then}

-- What holds if the run ends, or stops early, without undefined behaviour.
abbrev pub Post : {A : Type 0} → (A → World → Type 0) → (Exit → World → Type 0) → Res A → Type 0
Post P Q (ok a w) = P a w
Post P Q (stop e w) = Q e w
Post P Q (fault x) = Unit {0}

-- The same, and there is no undefined behaviour.
abbrev pub Safe : {A : Type 0} → (A → World → Type 0) → (Exit → World → Type 0) → Res A → Type 0
Safe P Q (ok a w) = P a w
Safe P Q (stop e w) = Q e w
Safe P Q (fault x) = ⊥

-- The postcondition as a family, for a run that is put together from parts.
pub data Meets {A : Type 0} (P : A → World → Type 0) (Q : Exit → World → Type 0)
    : Res A → Type 0 where
  ends : {a : A} {w : World} → P a w → Meets P Q (ok a w)
  stops : {e : Exit} {w : World} → Q e w → Meets P Q (stop e w)
  faults : {x : Fault} → Meets P Q (fault x)

module _ {A : Type 0} {P : A → World → Type 0} {Q : Exit → World → Type 0} where
  pub of_Post : (r : Res A) → Post P Q r → Meets P Q r
  of_Post (ok a w) p = ends p
  of_Post (stop e w) p = stops p
  of_Post (fault x) p = faults

  pub to_Post : {r : Res A} → Meets P Q r → Post P Q r
  to_Post (ends p) = p
  to_Post (stops p) = p
  to_Post faults = tt

  pub Meets-bind :
      {B : Type 0} {R : B → World → Type 0} {r : Res A} {f : A → M B}
      → Meets P Q r
      → ((a : A) (w : World) → P a w → Meets R Q (f a w))
      → Meets R Q (and_then r f)
  Meets-bind (ends p) k = k _ _ p
  Meets-bind (stops p) k = stops p
  Meets-bind faults k = faults

  pub Meets-mono :
      {R : A → World → Type 0} {S : Exit → World → Type 0} {r : Res A}
      → Meets P Q r
      → ((a : A) (w : World) → P a w → R a w)
      → ((e : Exit) (w : World) → Q e w → S e w)
      → Meets R S r
  Meets-mono (ends p) f g = ends (f _ _ p)
  Meets-mono (stops p) f g = stops (g _ _ p)
  Meets-mono faults f g = faults

  -- What holds whatever the run does.
  pub Meets-always :
      (r : Res A) → ((a : A) (w : World) → P a w) → ((e : Exit) (w : World) → Q e w) → Meets P Q r
  Meets-always (ok a w) f g = ends (f a w)
  Meets-always (stop e w) f g = stops (g e w)
  Meets-always (fault x) f g = faults

-- A run that ends with a value, of which `P` holds.
pub data Returns {A : Type 0} (P : A → World → Type 0) : Res A → Type 0 where
  returns : {a : A} {w : World} → P a w → Returns P (ok a w)

module _ {A : Type 0} {P : A → World → Type 0} where
  pub of_Safe : (r : Res A) → Safe P (λ e w. ⊥) r → Returns P r
  of_Safe (ok a w) p = returns p
  of_Safe (stop e w) p = absurd p
  of_Safe (fault x) p = absurd p

  pub to_Safe : {r : Res A} → Returns P r → Safe P (λ e w. ⊥) r
  to_Safe (returns p) = p

  pub Returns-bind :
      {B : Type 0} {R : B → World → Type 0} {r : Res A} {f : A → M B}
      → Returns P r
      → ((a : A) (w : World) → P a w → Returns R (f a w))
      → Returns R (and_then r f)
  Returns-bind (returns p) k = k _ _ p

  pub Returns-mono :
      {R : A → World → Type 0} {r : Res A}
      → Returns P r
      → ((a : A) (w : World) → P a w → R a w)
      → Returns R r
  Returns-mono (returns p) f = returns (f _ _ p)

  pub Returns-on_return : (f : Status → A) {r : Res A} → Returns P r → Returns P (on_return f r)
  Returns-on_return f (returns p) = returns p

  -- What follows a run that ends has undefined behaviour.
  pub Returns-fault :
      {B : Type 0} {r : Res A} {f : A → M B} {x : Fault}
      → Returns P r
      → ((a : A) (w : World) → P a w → f a w ≡ fault x)
      → and_then r f ≡ fault x
  Returns-fault (returns p) k = k _ _ p
