-- ===== src/Ownership/Browsing.antt =====
-- What becomes of a tensor in a session of the browser (cmake/src/emscripten_api.h), until it is itself
-- deallocated or let go.
use nx_iree.Base.{
  ℕ, ◌≡◌, ◌≢◌, refl, none, some, Option-cases, inl, inr, arith, subst, Bool-cases, ◌==◌,
}
use nx_iree.Machine.{Ptr, null, DataBuffer, Exit, World, Res, ok, stop, fault, use_after_free}
use nx_iree.Machine.Memory.{get_tensor, get_buffer, set_buffer}
use nx_iree.Machine.Post.{Post, Meets, Meets-bind, Meets-mono, to_Post}
use nx_iree.Api.{Api}
use nx_iree.Browser.{Browser}
use nx_iree.Tensor.{deallocate, delete_tensor}
use nx_iree.Tensor.Lifetime.{delete_tensor_lem}
use nx_iree.Discovery.{register_all_drivers}
use nx_iree.Emscripten.{
  drop_data_buffer, create_vm_instance, register_drivers, status_message, drop_instance,
  drop_status, set_buffer_size, set_id, set_uri, set_driver_name,
}
use nx_iree.Ownership.Heap.{Owned}
use nx_iree.Ownership.Store.{
  Content, store_of, only_here, deleted, deleted-others, deallocated-elsewhere,
}
use nx_iree.Ownership.Release.{Owned-Holds}
use nx_iree.Ownership.Rules.{ends, Run-bind, kept_rules}
use nx_iree.Ownership.Memory.{reading_rules}
use nx_iree.Ownership.Buffers.{drop_data_buffer-ok, dropped}
use nx_iree.Ownership.Devices.{
  create_instance-Kept, get_status_message-Kept, delete_device-Kept, perform-Kept,
}
use nx_iree.Ownership.Browser.{create_local_sync_device-Kept}
use nx_iree.Ownership.Arrays.{get_data-Kept}
use nx_iree.Ownership.Sessions.{
  Action, tensor_created, flat_array_made, tensor_deallocated, tensor_serialized, tensor_dropped,
  buffer_allocated, buffer_created, buffer_shown, buffer_dropped, memory_ensured, instance_created,
  device_created, instance_dropped, device_dropped, drivers_registered, called, buffer_read,
  message_read, status_dropped, size_written, id_written, uri_written, driver_name_written,
  perform_action, Session, Session-Owned,
}
use nx_iree.Ownership.Growth.{Grown-refl, IsGrown-Stable}
use nx_iree.Ownership.Surviving.{
  Survives, IsGrown-Survives, serialize_iree_tensor-Grown, new_data_buffer-Grown, run_call-Grown,
  ensure_malloc_free-Survives, read_data-Survives, tensor_of_js-Grown, data_buffer_of_js-Grown,
  to_flat_array-Grown,
}
use nx_iree.Ownership.Leaving.{Persists, Leaves, deallocate-Leaves, Grown-Persists, Persists-Leaves}

pub delete_gone :
    (q : Ptr) (w : World) → w.tensors q ≡ none → delete_tensor q w ≡ fault use_after_free
unfolding delete_tensor deallocate get_tensor
delete_gone q w gone = rw gone

-- Another tensor is let go.
delete_tensor-Leaves :
    (q : Ptr) (w : World) (p : Ptr) (c : Content)
    → Owned w
    → store_of w p ≡ some c
    → q ≢ p
    → Leaves p c (delete_tensor q w)
delete_tensor-Leaves q w p c h found other = elim (Option-cases (w.tensors q)) [
  | inl gone ↦ rw (delete_gone q w gone) tt
  | inr (t, here) ↦
      let changed =
        only_here q w (deleted q t w h here) (deleted-others q t w h here)
          (deallocated-elsewhere q t w h here) p in
      rw (delete_tensor_lem q t w (Owned-Holds q t w h here))
        (c, ground (arith, changed, found), refl, λ ne. refl)
]

dropped-kept :
    (q : Ptr) (b : DataBuffer) (w : World)
    → Owned w
    → w.buffers q ≡ some b
    → (p : Ptr) (c : Content) → store_of w p ≡ some c
    → store_of (dropped q b w) p ≡ some c
dropped-kept q b w h here p c found = elim (Option-cases (w.tensors p)) [
  | inl e ↦ absurd (ground (arith, found))
  | inr (t, e) ↦ elim (Bool-cases (t.data_ptr == null)) [
    | inl bare ↦ ground (arith, found)
    | inr held ↦ ground (arith, found, h.alone q p b t here e)
  ]
]

-- A data buffer goes; its block is no tensor's.
drop_data_buffer-Leaves :
    (q : Ptr) (w : World) (p : Ptr) (c : Content)
    → Owned w
    → store_of w p ≡ some c
    → Leaves p c (drop_data_buffer q w)
unfolding drop_data_buffer get_buffer
drop_data_buffer-Leaves q w p c h found = elim (Option-cases (w.buffers q)) [
  | inl gone ↦ rw gone tt
  | inr (b, here) ↦
      rw (drop_data_buffer-ok q b w h here)
        (c, dropped-kept q b w h here p c found, refl, λ ne. refl)
]

-- A size is written.
set_buffer_size-Leaves :
    (q n : ℕ) (w : World) (p : Ptr) (c : Content)
    → store_of w p ≡ some c
    → Leaves p c (set_buffer_size q n w)
unfolding set_buffer_size get_buffer set_buffer
set_buffer_size-Leaves q n w p c found = elim (Option-cases (w.buffers q)) [
  | inl gone ↦ rw gone tt
  | inr (b, here) ↦ rw here (c, found, refl, λ ne. refl)
]

Survives-Leaves :
    {A : Type 0} {r : Res A} (w : World) (p : Ptr) (c : Content)
    → Owned w
    → store_of w p ≡ some c
    → Survives w r
    → Leaves p c r
Survives-Leaves w p c h found s = to_Post (
    Meets-mono s (λ a v g. Grown-Persists w v h g p c found)
      λ e v g. Grown-Persists w v h g p c found)

module _ (api : Api) (b : Browser) where
  -- An action by which the tensor at `p` is given up.
  abbrev pub GivesUp : Action b → Ptr → Type 0
  GivesUp (tensor_deallocated q) p = q ≡ p
  GivesUp (tensor_dropped q) p = q ≡ p
  GivesUp a p = ⊥

  -- What an action frees, if it is more than what it allocated.
  pub data Sort (w : World) : Action b → Type 0 where
    kept : {a : Action b} → Survives w (perform_action api b a w) → Sort w a
    deallocation : (q : Ptr) → Sort w (tensor_deallocated q)
    deletion : (q : Ptr) → Sort w (tensor_dropped q)
    drop : (q : Ptr) → Sort w (buffer_dropped q)
    sizing : (q : Ptr) (n : ℕ) → Sort w (size_written q n)

  pub sort_of : (a : Action b) (w : World) → Owned w → Sort w a
  unfolding perform_action create_vm_instance register_drivers register_all_drivers status_message
      drop_instance drop_status set_id set_uri set_driver_name
  sort_of (tensor_created input dims type device) w h =
      let g = Grown-refl w h in kept (IsGrown-Survives (search (kept_rules, tensor_of_js-Grown)))
  sort_of (flat_array_made q) w h =
      let g = Grown-refl w h in kept (IsGrown-Survives (search (kept_rules, to_flat_array-Grown)))
  sort_of (tensor_serialized q) w h =
      let g = Grown-refl w h in
      kept (IsGrown-Survives (search (kept_rules, serialize_iree_tensor-Grown)))
  sort_of (buffer_allocated n) w h =
      let g = Grown-refl w h in
      kept (IsGrown-Survives (Run-bind (new_data_buffer-Grown api n w g) λ q v k. ends k.0))
  sort_of (buffer_created input) w h =
      let g = Grown-refl w h in
      kept (IsGrown-Survives (search (kept_rules, data_buffer_of_js-Grown)))
  sort_of (buffer_shown q) w h =
      let g = Grown-refl w h in kept (IsGrown-Survives (search (kept_rules, get_data-Kept)))
  sort_of instance_created w h =
      let g = Grown-refl w h in kept (IsGrown-Survives (search (kept_rules, create_instance-Kept)))
  sort_of device_created w h =
      let g = Grown-refl w h in
      kept (IsGrown-Survives (search (kept_rules, create_local_sync_device-Kept, IsGrown-Stable)))
  sort_of (instance_dropped q) w h = kept (Meets.ends (Grown-refl w h))
  sort_of (device_dropped q) w h =
      let g = Grown-refl w h in kept (IsGrown-Survives (delete_device-Kept q w g))
  sort_of (drivers_registered q) w h =
      let g = Grown-refl w h in kept (IsGrown-Survives (search (kept_rules, perform-Kept)))
  sort_of (called vm device code inputs) w h =
      let g = Grown-refl w h in kept (IsGrown-Survives (search (kept_rules, run_call-Grown)))
  sort_of (message_read s) w h =
      let g = Grown-refl w h in
      kept (IsGrown-Survives (search (kept_rules, get_status_message-Kept)))
  sort_of (status_dropped s) w h = kept (Meets.ends (Grown-refl w h))
  sort_of (size_written q n) w h = sizing q n
  sort_of (id_written q n) w h =
      let g = Grown-refl w h in kept (IsGrown-Survives (search reading_rules))
  sort_of (uri_written q text) w h =
      let g = Grown-refl w h in kept (IsGrown-Survives (search reading_rules))
  sort_of (driver_name_written q text) w h =
      let g = Grown-refl w h in kept (IsGrown-Survives (search reading_rules))
  sort_of (tensor_deallocated q) w h = deallocation q
  sort_of (tensor_dropped q) w h = deletion q
  sort_of (buffer_dropped q) w h = drop q
  sort_of memory_ensured w h = kept (ensure_malloc_free-Survives api w (Grown-refl w h))
  sort_of (buffer_read device q n) w h =
      kept (Meets-bind (read_data-Survives api device q n w (Grown-refl w h)) λ r v k. Meets.ends k)

  action-Leaves :
      (a : Action b) (w : World) (p : Ptr) (c : Content)
      → Owned w
      → store_of w p ≡ some c
      → ¬ GivesUp a p
      → Sort w a
      → Leaves p c (perform_action api b a w)
  unfolding perform_action
  action-Leaves a w p c h found spared (kept s) = Survives-Leaves w p c h found s
  action-Leaves a w p c h found spared (deallocation q) = deallocate-Leaves q w p c h found spared
  action-Leaves a w p c h found spared (deletion q) = delete_tensor-Leaves q w p c h found spared
  action-Leaves a w p c h found spared (drop q) = drop_data_buffer-Leaves q w p c h found
  action-Leaves a w p c h found spared (sizing q n) = set_buffer_size-Leaves q n w p c found

  -- In every state of a session of the browser, a call of the module, with any arguments and
  -- whatever the library answers, a write to one of its properties, or an object that goes with
  -- its last owner, leaves every tensor there with the members that it had, and with the bytes
  -- that it had, if any, unless the tensor is itself deallocated or let go; also where the call
  -- ends by an exception, but not where it runs into undefined behaviour.
  pub Session-Persists :
      (a : Action b) (w : World) (p : Ptr) (c : Content)
      → Session api b w
      → store_of w p ≡ some c
      → ¬ GivesUp a p
      → Post
          (λ u v. Persists c (store_of v p))
          (λ e v. Persists c (store_of v p))
          (perform_action api b a w)
  Session-Persists a w p c s found spared =
      let h = Session-Owned api b s in action-Leaves a w p c h found spared (sort_of a w h)

  -- Actions none of which is of the kind `G`; the session goes on after an exception.
  pub data Avoiding (G : Action b → Type 0) (w : World) : World → Type 0 where
    begin : Avoiding G w w
    next :
        {u v : World} (a : Action b)
        → Avoiding G w u
        → ¬ G a
        → perform_action api b a u ≡ ok tt v
        → Avoiding G w v
    caught :
        {u v : World} {e : Exit} (a : Action b)
        → Avoiding G w u
        → ¬ G a
        → perform_action api b a u ≡ stop e v
        → Avoiding G w v

  -- Actions that do not give up the tensor at `p`.
  abbrev pub Sparing : Ptr → World → World → Type 0
  Sparing p = Avoiding (λ a. GivesUp a p)

  pub Avoiding-Session :
      {G : Action b → Type 0} {w v : World} → Session api b w → Avoiding G w v → Session api b v
  Avoiding-Session s begin = s
  Avoiding-Session s (next a t spared run) = Session.next a (Avoiding-Session s t) run
  Avoiding-Session s (caught a t spared run) = Session.caught a (Avoiding-Session s t) run

  pub Sparing-Persists :
      (p : Ptr) (w v : World) (c : Content)
      → Session api b w
      → Sparing p w v
      → store_of w p ≡ some c
      → Persists c (store_of v p)
  Sparing-Persists p w v c s begin found = (c, found, refl, λ ne. refl)
  Sparing-Persists p w v c s (next {u = u} a t spared run) found = subst (Leaves p c) run (
      Persists-Leaves (perform_action api b a u) p c u (Sparing-Persists p w u c s t found)
        λ d there. Session-Persists a u p d (Avoiding-Session s t) there spared)
  Sparing-Persists p w v c s (caught {u = u} a t spared run) found = subst (Leaves p c) run (
      Persists-Leaves (perform_action api b a u) p c u (Sparing-Persists p w u c s t found)
        λ d there. Session-Persists a u p d (Avoiding-Session s t) there spared)
