-- ===== src/Machine/Ledger.antt =====
-- The account of IREE references: what the runtime was given, dropped and gave away.
use nx_iree.Base.{ℕ, ◌+◌, ◌≡◌, [], ◌∷◌, Bool, ◌==◌, ◌&&◌, not, if◌then◌else◌}
use nx_iree.Machine.{
  Ptr, null, World, Kind, acquire, release, move_ref, Trace, instance_kind, module_kind,
  context_kind, list_kind, view_kind, driver_kind, device_kind, allocator_kind, loader_kind,
  plugin_manager_kind, registry_kind,
}

kind_code : Kind → ℕ
kind_code instance_kind = 0
kind_code module_kind = 1
kind_code context_kind = 2
kind_code list_kind = 3
kind_code view_kind = 4
kind_code driver_kind = 5
kind_code device_kind = 6
kind_code allocator_kind = 7
kind_code loader_kind = 8
kind_code plugin_manager_kind = 9
kind_code registry_kind = 10

unfoldable pub same_kind : Kind → Kind → Bool
unfolding kind_code
same_kind j k = kind_code j == kind_code k

abbrev one_if : Bool → ℕ
one_if b = if b then 1 else 0

-- The null pointer is no reference.
abbrev is_object : Ptr → Bool
is_object p = not (p == null)

-- References of a kind that were handed to the runtime.
unfoldable pub acquired : Kind → Trace → ℕ
unfolding same_kind
acquired k [] = 0
acquired k (acquire j p ∷ t) = one_if (same_kind j k && is_object p) + acquired k t
acquired k (_ ∷ t) = acquired k t

-- References of a kind that it dropped or gave away.
unfoldable pub disposed : Kind → Trace → ℕ
unfolding same_kind
disposed k [] = 0
disposed k (release j p ∷ t) = one_if (same_kind j k && is_object p) + disposed k t
disposed k (move_ref j p ∷ t) = one_if (same_kind j k && is_object p) + disposed k t
disposed k (_ ∷ t) = disposed k t

-- The references to one buffer view that it dropped or gave away.
unfoldable pub view_disposed : Ptr → Trace → ℕ
unfolding same_kind
view_disposed v [] = 0
view_disposed v (release j p ∷ t) =
    one_if (same_kind j view_kind && (p == v && is_object p)) + view_disposed v t
view_disposed v (move_ref j p ∷ t) =
    one_if (same_kind j view_kind && (p == v && is_object p)) + view_disposed v t
view_disposed v (_ ∷ t) = view_disposed v t

-- From `w` to `v` the code was handed `n` references of a kind, and dropped none.
abbrev pub Owed : Kind → ℕ → World → World → Type 0
Owed k n w v =
    (acquired k v.trace ≡ acquired k w.trace + n) × (disposed k v.trace ≡ disposed k w.trace)

-- From `w` to `v` as many references were dropped as were handed out.
abbrev pub Settled : Kind → World → World → Type 0
Settled k w v = acquired k v.trace + disposed k w.trace ≡ acquired k w.trace + disposed k v.trace
