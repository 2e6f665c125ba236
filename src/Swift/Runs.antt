-- ===== src/Swift/Runs.antt =====
-- `nx_iree_call` of the C API for Swift on a library that does not fail: what it writes.
use nx_iree.Base.{
  ◌<◌, ℕ, zero, suc, ◌≤◌, ◌≡◌, ◌≢◌, ◌∙◌, refl, ap, inr, none, some, List, [], ◌∷◌, Option, map,
  false, length, length-replicate, replicate, drop, arith,
}
use nx_iree.Machine.{fault, out_of_bounds, Ptr, Cell, Tensor, Trace, World, ok, update}
use nx_iree.Machine.Post.{Returns, returns, Returns-bind}
use nx_iree.Machine.Laws.{operator_new-ok, store-ok, with_block}
use nx_iree.Api.{Api}
use nx_iree.Tensor.{wire, serialize}
use nx_iree.Tensor.RoundTrip.{IsTensor}
use nx_iree.Tensor.Fetch.{device_answer, unfilled, filled, serialize-OnDevice}
use nx_iree.Tensor.Lifetime.{without_data}
use nx_iree.Call.Remote.{Delivering, IsRemote, Remotes, nil, cons, Remotes-frame}
use nx_iree.Swift.{element, copy_serialized, write_output, write_outputs, delete_inline}
use nx_iree.Swift.Outputs.{delete_inline_lem}

element-drop :
    (i : ℕ) (result ps : List Ptr) (p : Ptr) (w : World)
    → drop i result ≡ p ∷ ps
    → (element i result w ≡ ok p w) × (drop (suc i) result ≡ ps)
unfolding element
element-drop zero [] ps p w e = ground arith
element-drop (suc i) [] ps p w e = ground arith
element-drop zero (q ∷ result) ps p w e = ground arith
element-drop (suc i) (q ∷ result) ps p w e = element-drop i result ps p w e

element-past_end :
    (i : ℕ) (result : List Ptr) (w : World)
    → drop i result ≡ []
    → element i result w ≡ fault out_of_bounds
unfolding element
element-past_end i [] w e = refl
element-past_end zero (q ∷ result) w e = ground arith
element-past_end (suc i) (q ∷ result) w e = element-past_end i result w e

module _ (api : Api) (d : Ptr) where
  write_output-past_end :
      (result : List Ptr) (i : ℕ) (w : World)
      → drop i result ≡ []
      → write_output api result i w ≡ fault out_of_bounds
  unfolding write_output
  write_output-past_end result i w e = rw (element-past_end i result w e) refl

  -- The `k` bytes at `q` are the wire form of the tensor on the device, with the bytes that the
  -- device answered as its data.
  pub record IsSent (blocks : Ptr → Option (List Cell)) (q k : ℕ) (tensor : Tensor) : Type 0 where
    pub fits : IsTensor tensor
    pub asked : Trace
    pub bytes : List ℕ
    pub answered :
        bytes ≡ (api.transfer_d2h asked d (api.view_buffer asked tensor.buffer_view) tensor.size).1
    pub whole : length bytes ≡ tensor.size
    pub held : blocks q ≡ some (wire tensor (map some bytes))
    pub counted : k ≡ length (wire tensor (map some bytes))

  abbrev pub AllSent : (Ptr → Option (List Cell)) → List (Ptr × ℕ) → List Tensor → Type 0
  AllSent blocks [] ts = Unit {0}
  AllSent blocks ((q, k) ∷ outputs) [] = ⊥
  AllSent blocks ((q, k) ∷ outputs) (t ∷ ts) = IsSent blocks q k t × AllSent blocks outputs ts

  module _ (p : Ptr) (t : Tensor) (w : World) where
    abbrev data_bytes : List Cell
    data_bytes = map some (device_answer api p d t w).1

    -- The states after `serialize`, after the copy, and after the tensor was deleted.
    abbrev serialized : World
    serialized = filled api p d t w data_bytes

    abbrev copied : World
    copied =
        record (with_block serialized (length (wire t data_bytes))
          (replicate (length (wire t data_bytes)) none)) {
            blocks =
                update
                  (update serialized.blocks (suc (suc w.last))
                    (some (replicate (length (wire t data_bytes)) none)))
                  (suc (suc w.last)) (some (wire t data_bytes));
          }

    abbrev written : World
    written = record (without_data p (record t { data_ptr = suc w.last }) copied) {
      tensors = update (without_data p (record t { data_ptr = suc w.last }) copied).tensors p none;
    }

    module _ (host : api.cuda_enabled ≡ false) (dl : Delivering api) (here : w.tensors p ≡ some t)
        (r : IsRemote d t) where
      serialized-ok : serialize api p w ≡ ok (some (wire t data_bytes)) serialized
      serialized-ok =
          serialize-OnDevice api p d t w host dl.whole
            (record {
              here = here;
              no_copy = r.no_copy;
              viewed = r.viewed;
              on = r.on;
              bounded = r.bounded;
            })
            (dl.grants _ _) (dl.copies _ _ _ _)

      copied-ok :
          copy_serialized api (some (wire t data_bytes)) serialized
          ≡ ok (suc (suc w.last), length (wire t data_bytes)) copied
      unfolding copy_serialized
      copied-ok = rw (
        operator_new-ok api.can_alloc (length (wire t data_bytes)) serialized (dl.grants _ _),
        store-ok (suc (suc w.last)) (wire t data_bytes)
            (replicate (length (wire t data_bytes)) none)
            (with_block serialized (length (wire t data_bytes))
              (replicate (length (wire t data_bytes)) none))
            (omega arith) (ground arith)
            (omega (arith, length-replicate {0} {A = Cell} (length (wire t data_bytes)) none)),
      )

      written-ok : delete_inline p copied ≡ ok tt written
      written-ok =
          delete_inline_lem p (record t { data_ptr = suc w.last }) copied
            (record { here = ground arith; allocated = inr (data_bytes, ground arith) })

      write_output-ok :
          (result : List Ptr) (i : ℕ)
          → element i result w ≡ ok p w
          → write_output api result i w ≡ ok (suc (suc w.last), length (wire t data_bytes)) written
      unfolding write_output
      write_output-ok result i at = rw (at, serialized-ok, copied-ok, written-ok)

      written-IsSent :
          (v : World)
          → v.blocks (suc (suc w.last)) ≡ written.blocks (suc (suc w.last))
          → IsSent v.blocks (suc (suc w.last)) (length (wire t data_bytes)) t
      written-IsSent v kept = record {
        fits = r.fits;
        asked = (unfilled api p d t w).trace;
        bytes = (device_answer api p d t w).1;
        answered = refl;
        whole = dl.whole _ _ _ _ (dl.copies _ _ _ _);
        held = ground arith;
        counted = refl;
      }

    -- What is elsewhere stays.
    written-elsewhere :
        ((q : Ptr) → q ≢ p → written.tensors q ≡ w.tensors q)
        × ((q : Ptr) → q ≤ w.last → written.blocks q ≡ w.blocks q)
        × (written.last ≡ suc (suc w.last))
    written-elsewhere = ((λ q ne. ground arith), (λ q le. ground arith), ground arith)

  module _ (host : api.cuda_enabled ≡ false) (dl : Delivering api) where
    pub write_outputs-Returns :
        (result : List Ptr) (i left l : ℕ) (ps : List Ptr) (ts : List Tensor) (w : World)
        → drop i result ≡ ps
        → left ≤ length ps
        → Remotes d w.tensors l ps ts
        → Returns
            (λ outputs v.
              (length outputs ≡ left)
              × AllSent v.blocks outputs ts
              × ((q : Ptr) → q ≤ w.last → v.blocks q ≡ w.blocks q))
            (write_outputs api result i left w)
    unfolding write_outputs
    write_outputs-Returns result i zero l ps ts w e le rs = returns (refl, tt, λ q h. refl)
    write_outputs-Returns result i (suc left) l [] [] w e le nil = absurd (omega arith)
    write_outputs-Returns result i (suc left) l [] (t ∷ ts) w e le rs = elim rs [ ]
    write_outputs-Returns result i (suc left) l (p ∷ ps) [] w e le rs = elim rs [ ]
    write_outputs-Returns result i (suc left) l (p ∷ ps) (t ∷ ts) w e le (cons lt here r rs) =
        rw (write_output-ok p t w host dl here r result i (element-drop i result ps p w e).0) (
          Returns-bind
            (write_outputs-Returns result (suc i) left p ps ts (written p t w)
              (element-drop i result ps p w e).1 (omega arith)
              (Remotes-frame rs λ q h. (written-elsewhere p t w).0 q (omega arith)))
            λ outputs v (len, all, kept). returns (
              ap suc len,
              (
                written-IsSent p t w host dl here r v
                    (kept (suc (suc w.last)) (omega (arith, (written-elsewhere p t w).2))),
                all,
              ),
              λ q h.
                  kept q (omega (arith, (written-elsewhere p t w).2))
                  ∙ (written-elsewhere p t w).1 q h,
            ))

    -- More outputs than there are: the vector is read past its end.
    pub write_outputs-past_end :
        (result : List Ptr) (i left l : ℕ) (ps : List Ptr) (ts : List Tensor) (w : World)
        → drop i result ≡ ps
        → length ps < left
        → Remotes d w.tensors l ps ts
        → write_outputs api result i left w ≡ fault out_of_bounds
    unfolding write_outputs
    write_outputs-past_end result i zero l ps ts w e lt rs = absurd (omega arith)
    write_outputs-past_end result i (suc left) l [] (t ∷ ts) w e lt rs = elim rs [ ]
    write_outputs-past_end result i (suc left) l (p ∷ ps) [] w e lt rs = elim rs [ ]
    write_outputs-past_end result i (suc left) l [] [] w e lt nil =
        rw (write_output-past_end result i w e) refl
    write_outputs-past_end result i (suc left) l (p ∷ ps) (t ∷ ts) w e lt (cons above here r rs) =
        rw (
          write_output-ok p t w host dl here r result i (element-drop i result ps p w e).0,
          write_outputs-past_end result (suc i) left p ps ts (written p t w)
              (element-drop i result ps p w e).1 (omega arith)
              (Remotes-frame rs λ q h. (written-elsewhere p t w).0 q (omega arith)),
        )
