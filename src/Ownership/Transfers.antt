-- ===== src/Ownership/Transfers.antt =====
-- A tensor that one library sends over the wire (`serialize_tensor` of c_src/nx_iree.cc) and another
-- receives (`deserialize_tensor`), each in a state that a history of calls leads to.
use nx_iree.Base.{
  ℕ, suc, ◌≡◌, ◌≢◌, refl, none, some, List, [], ◌∷◌, ◌++◌, map, length, replicate, length-replicate,
  arith, take, take-length,
}
use nx_iree.Machine.{Ptr, null, Cell, Tensor, World, ok, update}
use nx_iree.Machine.Laws.{with_block, malloc-ok, store-ok, load-all}
use nx_iree.Api.{Api}
use nx_iree.Tensor.{wire}
use nx_iree.Tensor.RoundTrip.{IsTensor, Allocates, serialize-host}
use nx_iree.Erlang.{Env, tensor}
use nx_iree.Nif.Terms.{argument, ok_term}
use nx_iree.Nif.Tensors.{serialized_binary, serialize_tensor, deserialize_tensor}
use nx_iree.Ownership.Heap.{Owned}
use nx_iree.Ownership.Store.{store_of, Becomes}
use nx_iree.Ownership.Received.{received, deserialize-Becomes}
use nx_iree.Ownership.Histories.{History, History-IsOwned}

-- The state after a binary was made of the bytes.
abbrev pub with_binary : List Cell → World → World
with_binary cs w = record w {
  last = suc w.last;
  trace = (with_block w (length cs) cs).trace;
  blocks =
      update (update w.blocks (suc w.last) (some (replicate (length cs) none))) (suc w.last)
        (some cs);
}

take_size : (n : ℕ) (b : List Cell) → length b ≡ n → take n b ≡ b
take_size n b len = rw (← len) (take-length b)

module _ (api : Api) (e : Env) where
  open e use {Term}

  serialized_binary-ok :
      (cs : List Cell) (w : World)
      → Allocates api
      → serialized_binary api e (some cs) w ≡ ok (ok_term e (e.make_binary cs)) (with_binary cs w)
  unfolding serialized_binary
  serialized_binary-ok cs w granted = ground (
    arith,
    malloc-ok api.can_alloc (length cs) w (granted _ _),
    store-ok (suc w.last) cs (replicate (length cs) none)
        (with_block w (length cs) (replicate (length cs) none)),
    length-replicate {0} {A = Cell} (length cs) none,
    load-all (suc w.last) (length cs) cs (with_binary cs w),
  )

  -- A tensor with a host copy is sent as its wire form.
  serialize_tensor-wire :
      (a0 : Term) (p : Ptr) (t : Tensor) (b : List Cell) (w : World)
      → Allocates api
      → e.get_resource tensor a0 ≡ some p
      → w.tensors p ≡ some t
      → t.data_ptr ≢ null
      → w.blocks t.data_ptr ≡ some b
      → length b ≡ t.size
      → serialize_tensor api e (a0 ∷ []) w
        ≡ ok (ok_term e (e.make_binary (wire t b))) (with_binary (wire t b) w)
  unfolding serialize_tensor argument
  serialize_tensor-wire a0 p t b w granted read here held block len =
      rw
        (
          read,
          serialize-host api p t b w here held block (omega (arith, len)),
          take_size t.size b len,
        )
        (serialized_binary-ok (wire t b) w granted)

  received_from :
      (b0 : Term) (members : Tensor) (b : List Cell) (input : List ℕ) (rest : List Cell) (w : World)
      → Owned w
      → Allocates api
      → IsTensor members
      → length b ≡ members.size
      → e.inspect_binary b0 ≡ some input
      → map some input ≡ wire members b ++ rest
      → (p : Ptr) × (v : World) × (deserialize_tensor api e (b0 ∷ []) w
          ≡ ok (ok_term e (e.make_resource tensor p)) v)
        × (store_of w p ≡ none)
        × Becomes
            (store_of w)
            p
            (some (record { members = received members; bytes = some b }))
            (store_of v)
  unfolding deserialize_tensor argument
  received_from b0 members b input rest w h granted fits len read same =
      let (p, v, run, fresh, becomes) =
        deserialize-Becomes api members b rest w h granted fits len in
      (p, v, rw (read, same, run) refl, fresh, becomes)

-- After any history of calls of one library, where memory is granted, `serialize_tensor` of a
-- tensor with a host copy, whose members fit their fields, answers with its wire form; and
-- after any history of calls of a library, the same or another, where memory is granted,
-- `deserialize_tensor` of a binary with these bytes, and anything behind them, answers with a
-- new tensor and adds one entry to the abstract store, with the same members and bytes and
-- neither view nor device, and changes no other.
pub History-transfer :
    (api : Api) (e : Env) (w : World) (api' : Api) (e' : Env) (v : World) (a0 : e.Term)
    (b0 : e'.Term) (p : Ptr) (t : Tensor) (b rest : List Cell) (input : List ℕ)
    → History api e w
    → History api' e' v
    → Allocates api
    → Allocates api'
    → e.get_resource tensor a0 ≡ some p
    → w.tensors p ≡ some t
    → IsTensor t
    → t.data_ptr ≢ null
    → w.blocks t.data_ptr ≡ some b
    → e'.inspect_binary b0 ≡ some input
    → map some input ≡ wire t b ++ rest
    → (serialize_tensor api e (a0 ∷ []) w
        ≡ ok (ok_term e (e.make_binary (wire t b))) (with_binary (wire t b) w))
      × (q : Ptr) × (u : World) × (deserialize_tensor api' e' (b0 ∷ []) v
          ≡ ok (ok_term e' (e'.make_resource tensor q)) u)
      × (store_of v q ≡ none)
      × Becomes (store_of v) q (some (record { members = received t; bytes = some b })) (store_of u)
History-transfer api e w api' e' v a0 b0 p t b rest input h h' granted granted' read here fits held
      block inspected same =
    let (c, there, sized) = (History-IsOwned api e w h).held p t here held in
    let len : length b ≡ t.size = ground (arith, block, there, sized) in
    let (q, u, run, fresh, becomes) =
      received_from api' e' b0 t b input rest v (History-IsOwned api' e' v h') granted' fits len
        inspected same in
    (
      serialize_tensor-wire api e a0 p t b w granted read here held block len,
      q,
      u,
      run,
      fresh,
      becomes,
    )
