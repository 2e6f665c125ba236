-- ===== src/Swift/Strings.antt =====
-- The array of URIs that `nx_iree_list_all_devices` makes.
use nx_iree.Base.{
  ℕ, zero, suc, ◌+◌, ◌≡◌, ◌≢◌, Text, if◌then◌else◌, refl, ◌⊎◌, inl, inr, none, some, List, [], ◌∷◌,
  ◌++◌, map, true, length, length-map, replicate, length-replicate, arith, Bool-cases, ap, sym, ◌*◌,
  drop, ◌==◌,
}
use native.Mathlib.Numerals.{unary_clauses}
use nx_iree.Machine.{Ptr, Cell, Device, World, ok, null, update, fail, pure, null_deref}
use nx_iree.Machine.Post.{Post, Safe, Meets, ends, to_Post, Meets-bind, Meets-always}
use nx_iree.Machine.Laws.{with_block, operator_new-ok}
use nx_iree.Machine.Memory.{get_device, store, malloc}
use nx_iree.Api.{Api, is_ok}
use nx_iree.Discovery
use nx_iree.Swift.Listing.{copy_uri, copy_uris, list_all_devices}

drop-replicate : (n : ℕ) → drop n (replicate {A = Cell} (suc n) none) ≡ none ∷ []
drop-replicate zero = refl
drop-replicate (suc n) = drop-replicate n

drop_unset : (n : ℕ) → drop n (replicate {A = Cell} (n + 1) none) ≡ none ∷ []
drop_unset n = simp unary_clauses (drop-replicate n)

module _ (api : Api) where
  copy_text-unterminated :
      (text : Text) (q : Ptr) (w : World)
      → q ≢ null
      → w.blocks q ≡ some (replicate (length text + 1) none)
      → (v : World) × (store q (map some text) w ≡ ok tt v)
        × (v.blocks q ≡ some (map some text ++ none ∷ []))
  unfolding store
  copy_text-unterminated [] q w ne here = (w, refl, here)
  copy_text-unterminated (c ∷ text) q w ne here = (
    record w { blocks = update w.blocks q (some (map some (c ∷ text) ++ none ∷ [])) },
    ground (
      arith,
      drop_unset (length text),
      length-map some text,
      length-replicate {0} {A = Cell} (length text + 1) none,
    ),
    ground arith,
  )

  -- The copy of a device's URI has the URI's characters and then a byte that nobody wrote, if
  -- its memory is granted.
  pub copy_uri-unterminated :
      (p : Ptr) (d : Device) (w : World)
      → w.devices p ≡ some d
      → api.can_alloc w.trace (length d.uri + 1) ≡ true
      → Safe (λ q v. v.blocks q ≡ some (map some d.uri ++ none ∷ [])) (λ e v. ⊥) (copy_uri api p w)
  unfolding copy_uri get_device
  copy_uri-unterminated p d w here granted =
      rw (here, operator_new-ok api.can_alloc (length d.uri + 1) w granted, written.1) written.2
    where
      fresh : World
      fresh = with_block w (length d.uri + 1) (replicate (length d.uri + 1) none)

      written :
          (v : World) × (store (suc w.last) (map some d.uri) fresh ≡ ok tt v)
          × (v.blocks (suc w.last) ≡ some (map some d.uri ++ none ∷ []))
      written = copy_text-unterminated d.uri (suc w.last) fresh (ground arith) (ground arith)

  copy_uris-length :
      (array : Ptr) (ps : List Ptr) (w : World)
      → Meets (λ os v. length os ≡ length ps) (λ e v. Unit {0}) (copy_uris api array ps w)
  unfolding copy_uris
  copy_uris-length array [] w = ends refl
  copy_uris-length array (p ∷ ps) w =
      Meets-bind {P = λ q v. Unit {0}} (Meets-always (copy_uri api p w) (λ q v. tt) (λ e v. tt))
        λ q v h.
          Meets-bind {A = Unit {0}} {P = λ x u. Unit {0}}
            (Meets-always ((if array == null then fail null_deref else pure tt) v) (λ x u. tt)
              (λ e u. tt))
            λ x u g. Meets-bind (copy_uris-length array ps u) λ os y k. ends (ap suc k)

  list_all :
      (w : World)
      → Meets
          (λ r v. (r ≡ (none, none)) ⊎ ((os : List Ptr) × (r ≡ (some os, some (length os)))))
          (λ e v. Unit {0})
          (list_all_devices api w)
  unfolding list_all_devices
  list_all w =
      Meets-bind {P = λ x v. Unit {0}}
        (Meets-always (Discovery.get_driver_registry api w) (λ x v. tt) (λ e v. tt))
        λ registry v h.
          Meets-bind {P = λ x u. Unit {0}}
            (Meets-always (Discovery.list_devices api registry [] v) (λ x u. tt) (λ e u. tt))
            λ x u g. elim (Bool-cases (is_ok x.0)) [
              | inl fine ↦ rw fine (
                  Meets-bind {P = λ y t. Unit {0}}
                    (Meets-always (malloc api.can_alloc (8 * length x.1) u) (λ y t. tt) (λ e t. tt))
                    λ array t k.
                      Meets-bind (copy_uris-length array x.1 t)
                        λ os y l. ends (inr (os, ap (λ n. (some os, some n)) (sym l))))
              | inr bad ↦ rw bad (ends (inl refl))
            ]

  -- When `nx_iree_list_all_devices` ends without undefined behaviour or an exception, it either
  -- returns null and leaves the count as it was, or returns an array and writes its length.
  pub list_all_devices-count :
      (w : World)
      → Post
          (λ r v. (r ≡ (none, none)) ⊎ ((os : List Ptr) × (r ≡ (some os, some (length os)))))
          (λ e v. Unit {0})
          (list_all_devices api w)
  unfolding list_all_devices
  list_all_devices-count w = to_Post (list_all w)
