-- ===== src/Nif/Results.antt =====
-- What Elixir reads of the tensors that a run gave: `call_nif`, and `read_buffer_nif` after it.
use nx_iree.Base.{
  ℕ, suc, ◌^◌, ◌<◌, ◌≡◌, ◌≢◌, refl, none, some, List, [], ◌∷◌, map, Text, false, length, length-map,
  replicate, length-replicate, arith,
}
use nx_iree.Base.Int.{negsuc, to_i64, to_u64}
use nx_iree.Tensor.{size_max}
use nx_iree.Machine.{null, Ptr, Cell, Tensor, Trace, World, ok, update}
use nx_iree.Machine.Post.{Safe, returns, Returns-bind, to_Safe}
use nx_iree.Machine.Memory.{get_tensor}
use nx_iree.Machine.Laws.{with_block, malloc-ok, load-all}
use nx_iree.Api.{Api}
use nx_iree.Types.{iree_type_to_nx_type}
use nx_iree.Tensor.Fetch.{answer, transferred, read_buffer-ok, buffer_of}
use nx_iree.Call.Obliging.{Obliging, AllInputs}
use nx_iree.Call.Remote.{
  Invocation, program_outputs, Delivering, Remotes, nil, cons, call-Delivered,
}
use nx_iree.Erlang.{Env, hal_device, tensor}
use nx_iree.Nif.Terms.{argument, ok_term, make}
use nx_iree.Nif.Tensors.{requested, read_into, read_buffer_nif}
use nx_iree.Nif.Program.{output_term, output_terms, answer_results, answer_call, call_nif}
use nx_iree.Nif.Runs.{CallArguments}

-- A tensor whose data can be read from a device.
pub record IsViewed (t : Tensor) : Type 0 where
  pub viewed : t.buffer_view ≢ null
  pub bounded : t.size < size_max

module _ (api : Api) (e : Env) where
  open e use {Term}

  -- Without CUDA, the whole of a tensor on a device is read as the bytes that the reader answers.
  abbrev pub AnswersBytes : Ptr → Tensor → Term → Type 0
  AnswersBytes reader t r =
      (asked : Trace) × (bytes : List ℕ) × (bytes
        ≡ (api.transfer_d2h asked reader (api.view_buffer asked t.buffer_view) t.size).1)
      × (length bytes ≡ t.size)
      × (r ≡ ok_term e (e.make_binary (map some bytes)))

  whole_size : (t : Tensor) → t.size < 2 ^ 64 → to_u64 (requested api e (negsuc 0) t) ≡ t.size
  unfolding requested to_u64 to_i64
  whole_size t small = ground arith

  module _ (host : api.cuda_enabled ≡ false) (dl : Delivering api) (reader : Ptr) (t : Tensor)
      (v : World) (r : IsViewed t) where
    abbrev unfilled : World
    unfilled = with_block v t.size (replicate t.size none)

    abbrev read_bytes : List ℕ
    read_bytes = (answer api reader t.buffer_view unfilled t.size).1

    abbrev filled : World
    filled = record (transferred api reader t.buffer_view unfilled t.size) {
      blocks = update unfilled.blocks (suc v.last) (some (map some read_bytes));
    }

    whole_answer : length read_bytes ≡ t.size
    whole_answer = dl.whole _ _ _ _ (dl.copies _ _ _ _)

    read_into-remote :
        read_into api e reader t (suc v.last) t.size unfilled
        ≡ ok (ok_term e (e.make_binary (map some read_bytes))) filled
    unfolding read_into
    read_into-remote = ground (
      arith,
      r.viewed,
      r.bounded,
      whole_answer,
      dl.copies unfilled.trace reader (buffer_of api reader t.buffer_view unfilled) t.size,
      length-replicate {0} {A = Cell} t.size none,
      length-map some read_bytes,
      read_buffer-ok api reader t.buffer_view unfilled (suc v.last) t.size (replicate t.size none)
          host dl.whole,
      load-all (suc v.last) t.size (map some read_bytes) filled,
    )

    read_buffer_nif-remote :
        (p : Ptr) (b0 b1 b2 : Term)
        → v.tensors p ≡ some t
        → e.get_resource hal_device b0 ≡ some reader
        → e.get_resource tensor b1 ≡ some p
        → e.get_int64 b2 ≡ some (negsuc 0)
        → read_buffer_nif api e b0 b1 b2 v
          ≡ ok (ok_term e (e.make_binary (map some read_bytes))) filled
    unfolding read_buffer_nif argument get_tensor
    read_buffer_nif-remote p b0 b1 b2 here h0 h1 h2 = ground (
      arith,
      malloc-ok api.can_alloc t.size v (dl.grants v.trace t.size),
      whole_size t,
      r.bounded,
      read_into-remote,
    )

  -- The tensor at `p`, its dimensions and the name of its type.
  abbrev pub tensor_term : Ptr → Tensor → Term
  tensor_term p t = e.make_tuple (
      make e tensor p
      ∷ e.make_list (map (λ x. e.make_int64 (to_i64 x)) t.dims)
      ∷ e.make_string (iree_type_to_nx_type t.elem_type)
      ∷ [])

  -- The term of the tensor `t` on a device.
  abbrev pub Result : World → Ptr → Term → Tensor → Type 0
  Result v p term t = (v.tensors p ≡ some t) × (term ≡ tensor_term p t) × IsViewed t

  abbrev pub AllResults : World → List Ptr → List Term → List Tensor → Type 0
  AllResults v [] terms ts = (terms ≡ []) × (ts ≡ [])
  AllResults v (p ∷ ps) terms [] = ⊥
  AllResults v (p ∷ ps) terms (t ∷ ts) =
      (x : Term) × (xs : List Term) × (terms ≡ x ∷ xs) × Result v p x t × AllResults v ps xs ts

  module _ (n : ℕ) (o : Obliging api n) (dl : Delivering api) where
    pub read_result :
        (p : Ptr) (t : Tensor) (v : World)
        → v.tensors p ≡ some t
        → IsViewed t
        → (reader : Ptr) (b0 b1 b2 : Term) → e.get_resource hal_device b0 ≡ some reader
        → e.get_resource tensor b1 ≡ some p
        → e.get_int64 b2 ≡ some (negsuc 0)
        → Safe (λ a u. AnswersBytes reader t a) (λ x u. ⊥) (read_buffer_nif api e b0 b1 b2 v)
    read_result p t v here r reader b0 b1 b2 h0 h1 h2 =
        rw (read_buffer_nif-remote o.host dl reader t v r p b0 b1 b2 here h0 h1 h2) (
          (unfilled o.host dl reader t v r).trace,
          read_bytes o.host dl reader t v r,
          refl,
          whole_answer o.host dl reader t v r,
          refl,
        )

    output_terms-Results :
        (d l : Ptr) (ps : List Ptr) (ts : List Tensor) (v : World)
        → Remotes d v.tensors l ps ts
        → (terms : List Term) × (output_terms api e ps v ≡ ok terms v) × AllResults v ps terms ts
    unfolding output_terms output_term get_tensor
    output_terms-Results d l [] [] v nil = ([], refl, (refl, refl))
    output_terms-Results d l [] (t ∷ ts) v rs = elim rs [ ]
    output_terms-Results d l (p ∷ ps) [] v rs = elim rs [ ]
    output_terms-Results d l (p ∷ ps) (t ∷ ts) v (cons lt here r rs) =
        let (xs, e', all) = output_terms-Results d p ps ts v rs in
        (
          tensor_term p t ∷ xs,
          rw (here, e') refl,
          (
            tensor_term p t,
            xs,
            refl,
            (here, refl, record { viewed = r.viewed; bounded = r.bounded }),
            all,
          ),
        )

    pub call_nif-Results :
        (a0 a1 a2 a3 a4 : Term) (vm device : Ptr) (name : Text) (bytecode : List ℕ)
        (inputs : List Ptr) (w : World)
        → CallArguments e a0 a1 a2 a3 a4 vm device name bytecode inputs
        → AllInputs w.tensors w.blocks inputs
        → Safe
            (λ r v.
              (ps : List Ptr) × (terms : List Term) × (x : Invocation) × (r
                ≡ ok_term e (e.make_list terms))
              × (length ps ≡ n)
              × AllResults v ps terms (program_outputs api device n x))
            (λ x v. ⊥)
            (call_nif api e a0 a1 a2 a3 a4 w)
    unfolding call_nif argument answer_call answer_results
    call_nif-Results a0 a1 a2 a3 a4 vm device name bytecode inputs w a h =
        rw (a.vm_read, a.device_read, a.name_read, a.bytecode_read, a.inputs_read)
          (to_Safe (
            Returns-bind (call-Delivered api n o dl vm device name bytecode inputs w h) λ r v m.
              let (terms, e', all) =
                output_terms-Results device 0 m.results (program_outputs api device n m.invocation)
                  v m.remotes in
              rw (m.fine, m.given, e')
                (returns (m.results, terms, m.invocation, refl, m.count, all))))
