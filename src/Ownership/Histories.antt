-- ===== src/Ownership/Histories.antt =====
-- Histories of calls of the functions that the library exports (the table `nif_funcs` of
-- c_src/nx_iree.cc), each run to its end.
use nx_iree.Base.{
  ◌++◌, length, subst, ◌≡◌, refl, ◌≢◌, Option, none, some, List, [], ◌∷◌, Text, Bool, true, false,
  if◌then◌else◌,
}
use nx_iree.Machine.{Cell, double_free, fault, Ptr, Tensor, World, M, ok, start}
use nx_iree.Api.{Api}
use nx_iree.Tensor.{deserialize, wire}
use nx_iree.Erlang.{Env}
use nx_iree.Nif.Devices
use nx_iree.Nif.Program.{dispatch, table_0, table_1, table_2, table_5}
use nx_iree.Ownership.Heap.{IsOwned, Owned, start-Owned}
use nx_iree.Ownership.Rules.{Kept-Owned, Kept-NoDoubleFree, Kept, Keeps, Shape, Holds, kept_rules}
use nx_iree.Ownership.Memory.{IsOwned-Stable}
use nx_iree.Ownership.Bufferless.{
  IsBufferless, Bufferless, IsBufferless-Stable, read_buffer_nif-Bufferless,
  allocate_buffer-Bufferless, deserialize_tensor-Bufferless, serialize_tensor-Bufferless,
  call_nif-Bufferless, deallocate_buffer-Bufferless,
}
use nx_iree.Ownership.Devices.{get_driver_registry-Kept}
use nx_iree.Tensor.RoundTrip.{IsTensor, Allocates}
use nx_iree.Ownership.Store.{run, store_of, Becomes}
use nx_iree.Ownership.Received.{received, deserialize-Becomes}
use nx_iree.Ownership.Handlers.{
  read_buffer_nif-Kept, allocate_buffer-Kept, deallocate_buffer-Kept, serialize_tensor-Kept,
  deserialize_tensor-Kept, create_instance_nif-Kept, list_devices_nif-Kept, list_drivers_nif-Kept,
  create_device_nif-Kept, call_nif-Kept,
}

-- The handler that is found keeps the invariant.
pub data AllKept (J : Shape) {A : Type 0} (w : World) : Option (M A) → Type 0 where
  kept : {m : M A} → Keeps J (m w) → AllKept J w (some m)
  missing : AllKept J w none

module _ {J : Shape} {A : Type 0} {w : World} where
  pub AllKept-if :
      (b : Bool) (m : M A) (rest : Option (M A))
      → Keeps J (m w)
      → AllKept J w rest
      → AllKept J w (if b then some m else rest)
  AllKept-if true m rest k r = kept k
  AllKept-if false m rest k r = r

  pub AllKept-some : {m : M A} → AllKept J w (some m) → Keeps J (m w)
  AllKept-some (kept k) = k

module _ (api : Api) (e : Env) where
  open e use {Term}

  pub get_driver_registry_nif-Kept :
      {J : Shape} (w : World) → Holds J w → Keeps J (Devices.get_driver_registry api e w)
  unfolding Devices.get_driver_registry
  get_driver_registry_nif-Kept w h = search (kept_rules, get_driver_registry-Kept)

  dispatch-AllKept :
      (name : Text) (args : List Term) (w : World)
      → Owned w
      → AllKept IsOwned w (dispatch api e name args)
  unfolding dispatch table_0 table_1 table_2 table_5
  dispatch-AllKept name [] w h =
      search (AllKept-if, kept, missing, create_instance_nif-Kept, get_driver_registry_nif-Kept)
  dispatch-AllKept name (a0 ∷ []) w h =
      search
        (
          AllKept-if, missing, IsOwned-Stable, list_devices_nif-Kept, list_drivers_nif-Kept,
          deallocate_buffer-Kept, serialize_tensor-Kept, deserialize_tensor-Kept,
        )
        depth 12
  dispatch-AllKept name (a0 ∷ a1 ∷ []) w h =
      search (AllKept-if, missing, IsOwned-Stable, create_device_nif-Kept, list_devices_nif-Kept)
  dispatch-AllKept name (a0 ∷ a1 ∷ a2 ∷ []) w h = search (AllKept-if, missing, read_buffer_nif-Kept)
  dispatch-AllKept name (a0 ∷ a1 ∷ a2 ∷ a3 ∷ []) w h =
      search (AllKept-if, missing, allocate_buffer-Kept)
  dispatch-AllKept name (a0 ∷ a1 ∷ a2 ∷ a3 ∷ a4 ∷ []) w h =
      search (AllKept-if, missing, call_nif-Kept)
  dispatch-AllKept name (a0 ∷ a1 ∷ a2 ∷ a3 ∷ a4 ∷ a5 ∷ args) w h = missing

  -- The states that calls of exported functions lead to, each with some arguments and run to its
  -- end. Between two calls the emulator's terms, and who calls, are left open.
  pub data History : World → Type 0 where
    begin : History start
    called :
        {w v : World} {m : M Term} {term : Term} (name : Text) (args : List Term)
        → History w
        → dispatch api e name args ≡ some m
        → m w ≡ ok term v
        → History v

  pub dispatch-Kept :
      {m : M Term} (name : Text) (args : List Term) (w : World)
      → Owned w
      → dispatch api e name args ≡ some m
      → Kept (m w)
  dispatch-Kept name args w h found =
      AllKept-some (subst (λ o. AllKept IsOwned w o) found (dispatch-AllKept name args w h))

  pub History-IsOwned : (w : World) → History w → Owned w
  History-IsOwned w begin = start-Owned
  History-IsOwned w (called name args h found run) =
      Kept-Owned (dispatch-Kept name args _ (History-IsOwned _ h) found) run

  dispatch-AllBufferless :
      (name : Text) (args : List Term) (w : World)
      → Owned w
      → Bufferless w
      → AllKept IsBufferless w (dispatch api e name args)
  unfolding dispatch table_0 table_1 table_2 table_5
  dispatch-AllBufferless name [] w o h =
      search (AllKept-if, kept, missing, create_instance_nif-Kept, get_driver_registry_nif-Kept)
  dispatch-AllBufferless name (a0 ∷ []) w o h =
      search
        (
          AllKept-if, missing, IsBufferless-Stable, list_devices_nif-Kept, list_drivers_nif-Kept,
          deallocate_buffer-Bufferless, serialize_tensor-Bufferless, deserialize_tensor-Bufferless,
        )
        depth 12
  dispatch-AllBufferless name (a0 ∷ a1 ∷ []) w o h =
      search
        (AllKept-if, missing, IsBufferless-Stable, create_device_nif-Kept, list_devices_nif-Kept)
  dispatch-AllBufferless name (a0 ∷ a1 ∷ a2 ∷ []) w o h =
      search (AllKept-if, missing, read_buffer_nif-Bufferless)
  dispatch-AllBufferless name (a0 ∷ a1 ∷ a2 ∷ a3 ∷ []) w o h =
      search (AllKept-if, missing, allocate_buffer-Bufferless)
  dispatch-AllBufferless name (a0 ∷ a1 ∷ a2 ∷ a3 ∷ a4 ∷ []) w o h =
      search (AllKept-if, missing, call_nif-Bufferless)
  dispatch-AllBufferless name (a0 ∷ a1 ∷ a2 ∷ a3 ∷ a4 ∷ a5 ∷ args) w o h = missing

  History-Bufferless : (w : World) → History w → Bufferless w
  History-Bufferless w begin = record { none_there = λ q. refl }
  History-Bufferless w (called {w = v} name args h found run) =
      Kept-Owned
        (AllKept-some (
          subst (λ o. AllKept IsBufferless v o) found
            (dispatch-AllBufferless name args v (History-IsOwned v h) (History-Bufferless v h))))
        run

  -- In every state that a history of calls of exported functions leads to, whatever the
  -- arguments, the emulator and the library: the host copy of a tensor is allocated and has the
  -- tensor's size, no two tensors share one, there is no data buffer, which only the browser
  -- has, a tensor with a view has a device, and nothing lies above the last pointer that was
  -- handed out.
  pub History-Owned : (w : World) → History w → Owned w × ((q : Ptr) → w.buffers q ≡ none)
  History-Owned w h = (History-IsOwned w h, λ q. (History-Bufferless w h).none_there q)

  -- No exported function frees a block of host memory twice, on any arguments, in any state
  -- that a history of calls leads to.
  pub History-NoDoubleFree :
      (w : World) (name : Text) (args : List Term) (m : M Term)
      → History w
      → dispatch api e name args ≡ some m
      → m w ≢ fault double_free
  History-NoDoubleFree w name args m h found =
      Kept-NoDoubleFree (dispatch-Kept name args w (History-IsOwned w h) found)

  -- After any history of calls, where memory is granted, reading the wire form of a tensor
  -- whose members fit their fields, with as many bytes as its size and anything behind them,
  -- adds one entry to the abstract store, with the same members and bytes and neither view nor
  -- device, and changes no other.
  pub History-deserialize :
      (w : World) (t : Tensor) (bytes rest : List Cell)
      → History w
      → Allocates api
      → IsTensor t
      → length bytes ≡ t.size
      → (p : Ptr) × (v : World) × (deserialize api (wire t bytes ++ rest) w ≡ ok p v)
        × (store_of w p ≡ none)
        × Becomes
            (store_of w)
            p
            (some (record { members = received t; bytes = some bytes }))
            (store_of v)
  History-deserialize w t bytes rest h granted fits len =
      deserialize-Becomes api t bytes rest w (History-IsOwned w h) granted fits len
