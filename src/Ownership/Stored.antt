-- ===== src/Ownership/Stored.antt =====
-- Data that Elixir stores in a tensor (`allocate_buffer` of c_src/nx_iree.cc), read back after any calls
-- that do not give up the tensor.
use nx_iree.Base.{
  ℕ, suc, ◌^◌, ◌<◌, ◌≡◌, ◌≢◌, refl, some, List, [], ◌∷◌, map, Text, codes, text_eq, length, arith,
  Option-cases, inl, inr,
}
use nx_iree.Base.Int.{ℤ, negsuc, to_i64, to_u64}
use nx_iree.Machine.{Ptr, null, Tensor, World, ok}
use nx_iree.Machine.Memory.{get_tensor}
use nx_iree.Machine.Laws.{malloc-ok}
use nx_iree.Api.{Api}
use nx_iree.Types.{type_none, nx_type_to_iree_type}
use nx_iree.Tensor.RoundTrip.{Allocates}
use nx_iree.Erlang.{Env, hal_device, tensor}
use nx_iree.Nif.Terms.{argument, ok_term}
use nx_iree.Nif.Tensors.{allocate_buffer, read_buffer_nif, requested}
use nx_iree.Nif.Program.{dispatch}
use nx_iree.Nif.Transfer.{
  Arguments, holding, host_tensor, allocate_buffer-holding, read_into-host, copied_out,
}
use nx_iree.Ownership.Heap.{Owned}
use nx_iree.Ownership.Store.{store_of}
use nx_iree.Ownership.Histories.{History, called, History-IsOwned}
use nx_iree.Ownership.Persistence.{Sparing, Sparing-Owned, Sparing-Persists}
use nx_iree.Ownership.Leaving.{Persists}

-- A tensor without a view, with `bytes` as its host copy.
record IsStored (bytes : List ℕ) (p : Ptr) (w : World) : Type 0 where
  stored : Tensor
  here : w.tensors p ≡ some stored
  viewless : stored.buffer_view ≡ null
  sized : stored.size ≡ length bytes
  copied : stored.data_ptr ≢ null
  held : w.blocks stored.data_ptr ≡ some (map some bytes)

module _ (api : Api) (e : Env) where
  open e use {Term}

  whole_size : (t : Tensor) → t.size < 2 ^ 64 → to_u64 (requested api e (negsuc 0) t) ≡ t.size
  unfolding requested to_u64 to_i64
  whole_size t small = ground arith

  read_buffer_nif-IsStored :
      (b0 b1 b2 : Term) (reader p : Ptr) (bytes : List ℕ) (w : World)
      → Allocates api
      → length bytes < 2 ^ 64
      → Owned w
      → IsStored bytes p w
      → e.get_resource hal_device b0 ≡ some reader
      → e.get_resource tensor b1 ≡ some p
      → e.get_int64 b2 ≡ some (negsuc 0)
      → read_buffer_nif api e b0 b1 b2 w
        ≡ ok (ok_term e (e.make_binary (map some bytes))) (copied_out bytes w)
  unfolding argument read_buffer_nif get_tensor
  read_buffer_nif-IsStored b0 b1 b2 reader p bytes w granted small h s h0 h1 h2 = ground (
    arith,
    s.here,
    s.sized,
    malloc-ok api.can_alloc (length bytes) w (granted _ _),
    whole_size s.stored,
    read_into-host api e reader s.stored bytes w s.viewless s.copied
        (λ same. ground (arith, s.held, h.fresh_block (suc w.last))) s.held,
  )

  -- A tensor that persists is still stored.
  Persists-IsStored :
      (p q : Ptr) (bytes : List ℕ) (dims : List ℤ) (type : ℕ) (w : World)
      → Persists
          (record {
            members = record (host_tensor q bytes dims type) { data_ptr = null };
            bytes = some (map some bytes);
          })
          (store_of w p)
      → IsStored bytes p w
  Persists-IsStored p q bytes dims type w (d, found, members, kept) =
      let held = kept (λ x. cc) in
      elim (Option-cases (w.tensors p)) [
        | inl gone ↦ absurd (ground (arith, found))
        | inr (t, here) ↦ record {
          stored = t;
          here = here;
          viewless = ground (arith, found, members);
          sized = ground (arith, found, members);
          copied = ground (arith, found, held);
          held = ground (arith, found, held);
        }
      ]

  holding-History :
      (a0 a1 a2 a3 : Term) (bytes : List ℕ) (device : Ptr) (dims : List ℤ) (name : Text) (w : World)
      → History api e w
      → Allocates api
      → Arguments e a0 a1 a2 a3 bytes device dims name
      → nx_type_to_iree_type name ≢ type_none
      → History api e (holding bytes dims (nx_type_to_iree_type name) w)
  unfolding dispatch text_eq
  holding-History a0 a1 a2 a3 bytes device dims name w h granted a known =
      called (codes "allocate_buffer") (a0 ∷ a1 ∷ a2 ∷ a3 ∷ []) h refl
        (allocate_buffer-holding api e a0 a1 a2 a3 bytes device dims name w granted a known)

  -- After any history of calls, where memory is granted and the arguments can be read,
  -- `allocate_buffer` answers with a new tensor; and after any further calls of exported
  -- functions, each run to its end, that do not hand this tensor to `deallocate_buffer`,
  -- `read_buffer` of it with -1 answers with the bytes it was made of, if they are fewer than 2
  -- ^ 64.
  pub History-read_back :
      (a0 a1 a2 a3 b0 b1 b2 : Term) (bytes : List ℕ) (device reader : Ptr) (dims : List ℤ)
      (name : Text) (w v : World)
      → History api e w
      → Allocates api
      → Arguments e a0 a1 a2 a3 bytes device dims name
      → nx_type_to_iree_type name ≢ type_none
      → length bytes < 2 ^ 64
      → Sparing api e (suc (suc w.last)) (holding bytes dims (nx_type_to_iree_type name) w) v
      → e.get_resource hal_device b0 ≡ some reader
      → e.get_resource tensor b1 ≡ some (suc (suc w.last))
      → e.get_int64 b2 ≡ some (negsuc 0)
      → (allocate_buffer api e (a0 ∷ a1 ∷ a2 ∷ a3 ∷ []) w
          ≡ ok
              (ok_term e (e.make_resource tensor (suc (suc w.last))))
              (holding bytes dims (nx_type_to_iree_type name) w))
        × (read_buffer_nif api e b0 b1 b2 v
            ≡ ok (ok_term e (e.make_binary (map some bytes))) (copied_out bytes v))
  History-read_back a0 a1 a2 a3 b0 b1 b2 bytes device reader dims name w v h granted a known small s
        h0 h1 h2 =
      let type = nx_type_to_iree_type name in
      let made =
        History-IsOwned api e (holding bytes dims type w)
          (holding-History a0 a1 a2 a3 bytes device dims name w h granted a known) in
      (
        allocate_buffer-holding api e a0 a1 a2 a3 bytes device dims name w granted a known,
        read_buffer_nif-IsStored b0 b1 b2 reader (suc (suc w.last)) bytes v granted small
            (Sparing-Owned api e made s)
            (Persists-IsStored (suc (suc w.last)) (suc w.last) bytes dims type v (
              Sparing-Persists api e (suc (suc w.last)) (holding bytes dims type w) v _ made s
                (ground arith)))
            h0 h1 h2,
      )
