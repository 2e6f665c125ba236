-- ===== src/Emscripten/Loaders.antt =====
-- What `create_device_with_loaders` of cmake/src/emscripten_api.cc gives back.
use nx_iree.Base.{
  ℕ, ◌+◌, ◌≡◌, ◌≢◌, refl, Option, List, Text, Bool, true, false, Bool-cases, inl, inr, arith, ◌==◌,
  ◌&&◌, not, if◌then◌else◌,
}
use mathlib.Core.Option.{get_or}
use nx_iree.Machine.{
  Ptr, null, Status, ok_status, Trace, Kind, World, plugin_manager_kind, loader_kind,
  allocator_kind, device_kind, M, pure, ◌>>◌, log, release,
}
use nx_iree.Machine.Ledger.{acquired, disposed, Settled, Owed, same_kind}
use nx_iree.Machine.Post.{Safe, Returns, returns, Returns-bind, to_Safe}
use nx_iree.Api.{Api, Created, is_ok, create}
use nx_iree.Emscripten.SyncDevice.{step_if_ok, drop_loader, create_device_with_loaders}

-- A creating call hands out an object just if it succeeds.
abbrev pub Gives : Created → Type 0
Gives c = (c.0 ≡ ok_status → get_or c.1 null ≢ null) × (c.0 ≢ ok_status → get_or c.1 null ≡ null)

-- One if the reference is of the kind, and there is one.
abbrev one_of : Kind → Kind → Option Ptr → ℕ
one_of j k p = if same_kind j k && not (get_or p null == null) then 1 else 0

-- A step that was made or left out.
pub record Stepped (s : Status) (j : Kind) (w : World) (r : Status × Option Ptr) (v : World)
    : Type 0 where
  pub more : (k : Kind) → acquired k v.trace ≡ acquired k w.trace + one_of j k r.1
  pub same : (k : Kind) → disposed k v.trace ≡ disposed k w.trace
  pub good : r.0 ≡ ok_status → (s ≡ ok_status) × (get_or r.1 null ≢ null)
  pub bad : r.0 ≢ ok_status → get_or r.1 null ≡ null

step_if_ok-Stepped :
    (s : Status) (before : Option Ptr) (j : Kind) (name : Text) (args : List ℕ)
    (q : Trace → Created) (w : World)
    → get_or before null ≡ null
    → ((t : Trace) → Gives (q t))
    → Returns (Stepped s j w) (step_if_ok s before j name args q w)
unfolding step_if_ok create acquired disposed
step_if_ok-Stepped s before j name args q w empty g = elim (Bool-cases (is_ok s)) [
  | inl fine ↦ elim (Bool-cases (is_ok (q w.trace).0)) [
    | inl made ↦
        rw (fine, made)
          (returns (record {
            more = λ k. ground (arith, g w.trace);
            same = λ k. refl;
            good = λ e. ground (arith, g w.trace);
            bad = λ e. ground (arith, g w.trace);
          }))
    | inr refused ↦
        rw (fine, refused)
          (returns (record {
            more = λ k. ground (arith, g w.trace);
            same = λ k. refl;
            good = λ e. ground (arith, g w.trace);
            bad = λ e. ground (arith, g w.trace);
          }))
  ]
  | inr left_out ↦ rw left_out (
      returns (record {
        more = λ k. ground arith;
        same = λ k. refl;
        good = λ e. ground arith;
        bad = λ e. empty;
      }))
]

-- The releases at the end: of the allocator, and of the loaders that were counted.
record GivenBack (heap l0 l1 : Option Ptr) (b0 b1 : Bool) (w v : World) : Type 0 where
  held : (k : Kind) → acquired k v.trace ≡ acquired k w.trace
  dropped :
      (k : Kind)
      → disposed k v.trace
        ≡ disposed k w.trace
          + one_of allocator_kind k heap
          + (if b0 then one_of loader_kind k l0 else 0)
          + (if b1 then one_of loader_kind k l1 else 0)

module _ {A : Type 0} (heap l0 l1 : Option Ptr) (a : A) where
  abbrev give_back : Bool → Bool → M A
  give_back b0 b1 = do
    log (release allocator_kind (get_or heap null))
    if b0 then drop_loader l0 else pure tt
    if b1 then drop_loader l1 else pure tt
    pure a

  give_back-Returns :
      {P : A → World → Type 0} (b0 b1 : Bool) (w : World)
      → ((v : World) → GivenBack heap l0 l1 b0 b1 w v → P a v)
      → Returns P (give_back b0 b1 w)
  unfolding drop_loader acquired disposed
  give_back-Returns true true w f =
      returns (f _ (record { held = λ k. refl; dropped = λ k. omega arith }))
  give_back-Returns true false w f =
      returns (f _ (record { held = λ k. refl; dropped = λ k. omega arith }))
  give_back-Returns false true w f =
      returns (f _ (record { held = λ k. refl; dropped = λ k. omega arith }))
  give_back-Returns false false w f =
      returns (f _ (record { held = λ k. refl; dropped = λ k. omega arith }))

-- The creating calls of the library hand out objects just if they succeed.
pub record AllGive (api : Api) : Type 0 where
  pub manager : (t : Trace) → Gives (api.plugin_manager_create t)
  pub system_loader : (t : Trace) (m : Ptr) → Gives (api.system_loader_create t m)
  pub vmvx_loader : (t : Trace) → Gives (api.vmvx_loader_create t)
  pub heap : (t : Trace) (name : Text) → Gives (api.heap_create t name)
  pub device :
      (t : Trace) (name : Text) (loaders : List Ptr) (a : Ptr)
      → Gives (api.sync_device_create t name loaders a)

-- As many references to loaders and to the allocator were dropped as were handed out; on success
-- one to a device and one to the plugin manager are held, and on an error none to a device.
abbrev pub Balanced : World → Status × Option Ptr → World → Type 0
Balanced w r v =
    Settled loader_kind w v
    × Settled allocator_kind w v
    × (r.0 ≡ ok_status → Owed device_kind 1 w v × Owed plugin_manager_kind 1 w v)
    × (r.0 ≢ ok_status → Owed device_kind 0 w v)
    × (disposed plugin_manager_kind v.trace ≡ disposed plugin_manager_kind w.trace)

-- The account of a whole run, from those of its steps.
module _ {w w0 w1 w2 w3 w4 v : World} {r0 r1 r2 r3 r4 : Status × Option Ptr}
    (a : Stepped ok_status plugin_manager_kind w r0 w0) (b : Stepped r0.0 loader_kind w0 r1 w1)
    (c : Stepped r1.0 loader_kind w1 r2 w2) (d : Stepped r2.0 allocator_kind w2 r3 w3)
    (e : Stepped r3.0 device_kind w3 r4 w4)
    (f : GivenBack r3.1 r1.1 r2.1 (is_ok r0.0) (is_ok r1.0) w4 v) where
  total_acquired :
      (k : Kind)
      → acquired k v.trace
        ≡ acquired k w.trace
          + one_of plugin_manager_kind k r0.1
          + one_of loader_kind k r1.1
          + one_of loader_kind k r2.1
          + one_of allocator_kind k r3.1
          + one_of device_kind k r4.1
  total_acquired k = omega (arith, a.more k, b.more k, c.more k, d.more k, e.more k, f.held k)

  total_disposed :
      (k : Kind)
      → disposed k v.trace
        ≡ disposed k w.trace
          + one_of allocator_kind k r3.1
          + (if is_ok r0.0 then one_of loader_kind k r1.1 else 0)
          + (if is_ok r1.0 then one_of loader_kind k r2.1 else 0)
  total_disposed k = omega (arith, a.same k, b.same k, c.same k, d.same k, e.same k, f.dropped k)

  first_loader : is_ok r0.0 ≡ false → get_or r1.1 null ≡ null
  first_loader h = ground (arith, b.good, b.bad)

  second_loader : is_ok r1.0 ≡ false → get_or r2.1 null ≡ null
  second_loader h = ground (arith, c.good, c.bad)

  run-Balanced : Balanced w (r4.0, r4.1) v
  unfolding same_kind
  run-Balanced = (
    ground (
      arith,
      total_acquired loader_kind,
      total_disposed loader_kind,
      first_loader,
      second_loader,
    ),
    ground (arith, total_acquired allocator_kind, total_disposed allocator_kind),
    (λ fine. (
      ground (arith, total_acquired device_kind, total_disposed device_kind, e.good),
      ground (
        arith,
        total_acquired plugin_manager_kind,
        total_disposed plugin_manager_kind,
        a.good,
        b.good,
        c.good,
        d.good,
        e.good,
      ),
    )),
    (λ bad. ground (arith, total_acquired device_kind, total_disposed device_kind, e.bad)),
    ground (arith, total_disposed plugin_manager_kind),
  )

module _ (api : Api) (w : World) (g : AllGive api) where
  create_device_with_loaders-Returns : Returns (Balanced w) (create_device_with_loaders api w)
  unfolding create_device_with_loaders
  create_device_with_loaders-Returns =
      Returns-bind (step_if_ok-Stepped _ _ plugin_manager_kind _ _ _ w refl g.manager) λ r0 w0 a.
        Returns-bind (step_if_ok-Stepped _ _ loader_kind _ _ _ w0 refl λ t. g.system_loader t _)
          λ r1 w1 b.
            Returns-bind (step_if_ok-Stepped _ _ loader_kind _ _ _ w1 refl g.vmvx_loader) λ r2 w2 c.
              Returns-bind (step_if_ok-Stepped _ _ allocator_kind _ _ _ w2 refl λ t. g.heap t _)
                λ r3 w3 d.
                  Returns-bind
                    (step_if_ok-Stepped _ _ device_kind _ _ _ w3 refl λ t. g.device t _ _ _)
                    λ r4 w4 e.
                      give_back-Returns r3.1 r1.1 r2.1 (r4.0, r4.1) (is_ok r0.0) (is_ok r1.0) w4
                        λ v f. run-Balanced a b c d e f

  -- `create_device_with_loaders` returns without undefined behaviour and throws nothing, and
  -- drops as many references to loaders, and to the allocator, as it was handed; when it
  -- succeeds it holds one more reference to a device and one to the plugin manager, which
  -- nobody gives back, and on an error none to a device. Each creating call of the library
  -- hands out an object just if it succeeds.
  pub create_device_with_loaders-Balanced :
      Safe (Balanced w) (λ e v. ⊥) (create_device_with_loaders api w)
  create_device_with_loaders-Balanced = to_Safe create_device_with_loaders-Returns
