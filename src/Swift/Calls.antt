-- ===== src/Swift/Calls.antt =====
-- `nx_iree_call` of the C API for Swift from its serialised inputs to its serialised outputs.
use nx_iree.Base.{
  ℕ, suc, ◌*◌, ◌^◌, ◌≤◌, ◌<◌, ◌≡◌, refl, inr, some, List, [], ◌∷◌, ◌++◌, map, length, arith, ltb,
  true, codes,
}
use nx_iree.Machine.{fault, out_of_bounds, Ptr, Cell, Tensor, World}
use nx_iree.Machine.Post.{Safe, Returns, returns, Returns-bind, Returns-fault, to_Safe}
use nx_iree.Machine.Laws.{operator_new-ok}
use nx_iree.Api.{Api}
use nx_iree.Tensor.{wire}
use nx_iree.Tensor.RoundTrip.{IsTensor, restored, restored_tensor, deserialize-wire}
use nx_iree.Call.Obliging.{Obliging, AllInputs}
use nx_iree.Call.Remote.{Invocation, program_outputs, Delivering, call-Delivered}
use nx_iree.Swift.{read_inputs, new_array, finish_call, run_call}
use nx_iree.Swift.Runs.{AllSent, write_outputs-Returns, write_outputs-past_end}

-- A tensor, its bytes, and what stands behind them in the buffer that is read.
abbrev pub Source : Type 0
Source = Tensor × List Cell × List Cell

abbrev pub buffer : Source → List Cell
buffer (t, bytes, rest) = wire t bytes ++ rest

abbrev pub AllSources : List Source → Type 0
AllSources [] = Unit {0}
AllSources ((t, bytes, rest) ∷ sources) = IsTensor t × (length bytes ≡ t.size) × AllSources sources

module _ (api : Api) (dl : Delivering api) where
  read_inputs-Returns :
      (sources : List Source) (w : World)
      → AllSources sources
      → Returns
          (λ ps v.
            AllInputs v.tensors v.blocks ps
            × ((q : Ptr) → q ≤ w.last → v.tensors q ≡ w.tensors q)
            × ((q : Ptr) → q ≤ w.last → v.blocks q ≡ w.blocks q))
          (read_inputs api (map buffer sources) w)
  unfolding read_inputs
  read_inputs-Returns [] w h = returns (tt, (λ q le. refl), λ q le. refl)
  read_inputs-Returns ((t, bytes, rest) ∷ sources) w (fits, len, h) =
      rw (deserialize-wire api t bytes rest w dl.grants fits len) (
        Returns-bind (read_inputs-Returns sources (restored t bytes w) h) λ ps v (all, same, kept).
          returns (
            (
              record {
                tensor = restored_tensor t w;
                here = ground (arith, same (suc (suc w.last)));
                readable =
                    inr
                      (bytes, ground (arith, kept (suc w.last)), ground arith, omega (arith, len));
              },
              all,
            ),
            (λ q le. ground (arith, same q)),
            λ q le. ground (arith, kept q),
          ))

  new_array-ok :
      (k : ℕ) (w : World)
      → k * 8 < 2 ^ 64
      → Returns (λ p v. v.tensors ≡ w.tensors) (new_array api k w)
  unfolding new_array
  new_array-ok k w small =
      let fits : ltb (k * 8) (2 ^ 64) ≡ true = ground arith in
      rw (fits, operator_new-ok api.can_alloc (k * 8) w (dl.grants _ _)) (returns refl)

  -- On a library without CUDA whose calls all succeed, whose views have as many dimensions as
  -- their rank, whose main function returns `n` values, which grants memory and copies all
  -- bytes that it is asked for, and whose sizes, types and dimensions fit their fields,
  -- `nx_iree_call` of the API for Swift, with the wire forms of tensors that have as many bytes
  -- as their size as its inputs, whatever stands behind them, and asked for at most `n`
  -- outputs, fewer than 2 ^ 61, writes as many as it was asked for, by no fault and no
  -- exception: the wire forms of the tensors that the library hands out, in their order, for
  -- the list of outputs of one `iree_vm_invoke`, whose members fit their fields, each with the
  -- bytes that the device answered for its view as data, as many as its size, and with the
  -- length of the wire form beside it.
  pub run_call-AllSent :
      (n : ℕ) (vm device : Ptr) (code : List ℕ) (sources : List Source) (num_outputs message : ℕ)
      (w : World)
      → Obliging api n
      → AllSources sources
      → num_outputs ≤ n
      → num_outputs * 8 < 2 ^ 64
      → Safe
          (λ r v.
            (outputs : List (Ptr × ℕ)) × (x : Invocation) × (r ≡ some outputs)
            × (length outputs ≡ num_outputs)
            × AllSent api device v.blocks outputs (program_outputs api device n x))
          (λ e v. ⊥)
          (run_call api vm device code (map buffer sources) num_outputs message w)
  unfolding run_call finish_call
  run_call-AllSent n vm device code sources num_outputs message w o h le small = to_Safe (
      Returns-bind (read_inputs-Returns sources w h) λ ps v (all, same, kept).
        Returns-bind (call-Delivered api n o dl vm device (codes "not_cuda") code ps v all) λ r u m.
          rw (m.fine, m.given)
            (Returns-bind (new_array-ok num_outputs u small) λ array t j.
              Returns-bind
                (write_outputs-Returns api device o.host dl m.results 0 num_outputs 0 m.results
                  (program_outputs api device n m.invocation) t refl (omega (arith, m.count))
                  (rw j m.remotes))
                λ outputs s (len, sent, kept). returns (outputs, m.invocation, refl, len, sent)))

  -- On a library without CUDA whose calls all succeed, whose views have as many dimensions as
  -- their rank, whose main function returns `n` values, which grants memory and copies all
  -- bytes that it is asked for, and whose sizes, types and dimensions fit their fields,
  -- `nx_iree_call` of the API for Swift, with the wire forms of tensors that have as many bytes
  -- as their size as its inputs, and asked for more outputs than `n`, fewer than 2 ^ 61, reads
  -- past the end of the vector of results.
  pub run_call-past_end :
      (n : ℕ) (vm device : Ptr) (code : List ℕ) (sources : List Source) (num_outputs message : ℕ)
      (w : World)
      → Obliging api n
      → AllSources sources
      → n < num_outputs
      → num_outputs * 8 < 2 ^ 64
      → run_call api vm device code (map buffer sources) num_outputs message w ≡ fault out_of_bounds
  unfolding run_call finish_call
  run_call-past_end n vm device code sources num_outputs message w o h lt small =
      Returns-fault (read_inputs-Returns sources w h) λ ps v (all, same, kept).
        Returns-fault (call-Delivered api n o dl vm device (codes "not_cuda") code ps v all)
          λ r u m.
            rw (m.fine, m.given)
              (Returns-fault (new_array-ok num_outputs u small) λ array t j.
                rw
                  (write_outputs-past_end api device o.host dl m.results 0 num_outputs 0 m.results
                    (program_outputs api device n m.invocation) t refl (omega (arith, m.count))
                    (rw j m.remotes))
                  refl)
