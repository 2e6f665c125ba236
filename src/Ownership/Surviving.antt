-- ===== src/Ownership/Surviving.antt =====
-- The functions of the API for the browser leave the tensors that are there as they are, but for those
-- that give a tensor up. A block is written to, or freed, only if the call allocated it.
use nx_iree.Base.{
  ℕ, ◌≡◌, ◌<◌, inl, inr, Option, none, some, List, [], ◌∷◌, Text, Bool-cases, Option-cases, arith,
  ◌==◌, if◌then◌else◌,
}
use nx_iree.Machine.{Ptr, null, Tensor, World, Res, Status, pure, ◌>>=◌, ◌>>◌}
use nx_iree.Machine.Memory.{get_tensor, set_tensor, get_device, get_buffer}
use nx_iree.Machine.Post.{Meets, Meets-bind}
use nx_iree.Api.{Api, is_ok}
use nx_iree.Browser.{Browser}
use nx_iree.Tensor.{read_buffer}
use nx_iree.Emscripten.{
  serialize_iree_tensor, new_data_buffer, drop_data_buffer, fetch_output, fetch_outputs,
  wrap_outputs, run_call, read_data, ensure_malloc_free,
}
use nx_iree.Emscripten.Values.{
  tensor_of_js, fill_tensor, data_buffer_of_js, fetch_flat, to_flat_array,
}
use nx_iree.Ownership.Rules.{
  Run, Run-bind, Run-mono, Keeps, Shape, Holds, Kept-bind, ends, stops, faults, kept_rules,
}
use nx_iree.Ownership.Memory.{reading_rules, get_device-Kept, get_tensor-Kept, determined-Kept}
use nx_iree.Ownership.Devices.{get_status_message-Kept}
use nx_iree.Ownership.Browser.{string_of-Kept, buffer_bytes-Kept}
use nx_iree.Ownership.Arrays.{unsupported-Kept, flat_array-Kept}
use nx_iree.Ownership.Growth.{
  IsGrown, Grown, Apart, malloc-Grown, store-Grown, put_tensor-Grown, new_buffer-Grown, free-Grown,
  drop_data_buffer-Grown,
}
use nx_iree.Ownership.Growing.{add_tensor, serialize-Grown, read_buffer-Grown}
use nx_iree.Ownership.Made.{AllNew, ResultsNew, call-New}

-- The invariant, however a run that frees something ends.
abbrev pub Survives : World → {A : Type 0} → Res A → Type 0
Survives old = Meets (λ a v. Grown old v) (λ e v. Grown old v)

pub Run-Meets :
    {J : Shape} {A : Type 0} {P : A → World → Type 0} {r : Res A}
    → Run J P r
    → Meets P (λ e v. Holds J v) r
Run-Meets (ends p) = Meets.ends p
Run-Meets (stops h) = Meets.stops h
Run-Meets (faults x) = Meets.faults

pub IsGrown-Survives :
    {old : World} {A : Type 0} {r : Res A} → Keeps (IsGrown old) r → Survives old r
IsGrown-Survives k = Run-Meets k

module _ (api : Api) {old : World} where
  pub serialize_iree_tensor-Grown :
      (p : Ptr) (w : World) → Grown old w → Keeps (IsGrown old) (serialize_iree_tensor api p w)
  unfolding serialize_iree_tensor
  serialize_iree_tensor-Grown p w g = search (kept_rules, serialize-Grown, string_of-Kept)

  pub new_data_buffer-Grown :
      (n : ℕ) (w : World)
      → Grown old w
      → Run (IsGrown old) (λ p v. Grown old v × (old.last < p)) (new_data_buffer api n w)
  unfolding new_data_buffer
  new_data_buffer-Grown n w g = Run-bind (malloc-Grown api.can_alloc n w g) λ p v (k, apart, same).
      elim (Bool-cases (p == null)) [
        | inl e ↦ rw e (stops k)
        | inr e ↦ rw e (new_buffer-Grown (record { data_ptr = p; size = n }) v apart k)
      ]

  -- The rest of `fetch_output`, once the tensor has its block.
  filling_up :
      (device view p n : ℕ) (w : World)
      → Apart old p
      → Grown old w
      → Keeps
          (IsGrown old)
          ((do d ← get_device device; status ← read_buffer api d.ref view p n; pure tt) w)
  filling_up device view p n w apart g =
      search (kept_rules, get_device-Kept, read_buffer-Grown) depth 12

  fetch_output-Grown :
      (device p : Ptr) (w : World)
      → old.last < p
      → Grown old w
      → Keeps (IsGrown old) (fetch_output api device p w)
  unfolding fetch_output get_tensor set_tensor
  fetch_output-Grown device p w lt g = elim (Option-cases (w.tensors p)) [
    | inl e ↦ rw e (faults tt)
    | inr (t, e) ↦
        let n = api.buffer_byte_length w.trace (api.view_buffer w.trace t.buffer_view) in
        rw e (
          Run-bind (malloc-Grown api.can_alloc n w g) λ d v (k, apart, same).
            filling_up device t.buffer_view d n _ apart
              (put_tensor-Grown p (record t { size = n; data_ptr = d }) lt k))
  ]

  fetch_outputs-Grown :
      (device : Ptr) (ps : List Ptr) (w : World)
      → AllNew old ps
      → Grown old w
      → Keeps (IsGrown old) (fetch_outputs api device ps w)
  unfolding fetch_outputs
  fetch_outputs-Grown device [] w all g = ends g
  fetch_outputs-Grown device (p ∷ ps) w (lt, all) g =
      Kept-bind (fetch_output-Grown device p w lt g) λ _ v k. fetch_outputs-Grown device ps v all k

  wrap_outputs-Grown :
      (device : Ptr) (r : Option (List Ptr)) (w : World)
      → ResultsNew old r
      → Grown old w
      → Keeps (IsGrown old) (wrap_outputs api device r w)
  unfolding wrap_outputs
  wrap_outputs-Grown device none w all g = ends g
  wrap_outputs-Grown device (some ps) w all g =
      Kept-bind (fetch_outputs-Grown device ps w all g) λ _ v k. ends k

  pub run_call-Grown :
      (vm device code : Ptr) (ps : List Ptr) (w : World)
      → Grown old w
      → Keeps (IsGrown old) (run_call api vm device code ps w)
  unfolding run_call
  run_call-Grown vm device code ps w g = Kept-bind (get_device-Kept device w g) λ d v k.
      Kept-bind (determined-Kept _ v k) λ ref v k.
        Kept-bind (buffer_bytes-Kept code v k) λ bytes v k.
          Run-bind (call-New api vm ref d.driver_name bytes ps v k)
            λ r u (k, all). Kept-bind (wrap_outputs-Grown device r.1 u all k) λ outputs x k. ends k

  pub ensure_malloc_free-Survives :
      (w : World) → Grown old w → Survives old (ensure_malloc_free api w)
  unfolding ensure_malloc_free
  ensure_malloc_free-Survives w g =
      Meets-bind (Run-Meets (malloc-Grown api.can_alloc 1 w g))
        λ p v (k, apart, same). free-Grown p v apart k

  -- On failure the buffer that was made goes again.
  given_or_dropped :
      (p : Ptr) (s : Status) (w : World)
      → old.last < p
      → Grown old w
      → Survives old {A = Status × Option Ptr}
          ((if is_ok s then pure (s, some p) else (drop_data_buffer p >> pure (s, none))) w)
  given_or_dropped p s w lt g = elim (Bool-cases (is_ok s)) [
    | inl e ↦ rw e (Meets.ends g)
    | inr e ↦ rw e (Meets-bind (drop_data_buffer-Grown p w lt g) λ _ v k. Meets.ends k)
  ]

  pub read_data-Survives :
      (device tensor n : ℕ) (w : World)
      → Grown old w
      → Survives old (read_data api device tensor n w)
  unfolding read_data get_buffer
  read_data-Survives device tensor n w g =
      Meets-bind (Run-Meets (new_data_buffer-Grown n w g)) λ p v (k, lt).
        elim (Option-cases (v.buffers p)) [
          | inl gone ↦ rw gone Meets.faults
          | inr (b, here) ↦
              let apart = k.new_buffers p b lt here in
              rw here (
                Meets-bind (Run-Meets (get_device-Kept device v k)) λ d u k.
                  Meets-bind (Run-Meets (get_tensor-Kept tensor u k)) λ t u k.
                    Meets-bind
                      (Run-Meets (read_buffer-Grown api d.ref t.buffer_view b.data_ptr n u apart k))
                      λ s u k. given_or_dropped p s u lt k)
        ]

  module _ (b : Browser) where
    open b use {Val}

    fill_tensor-Grown :
        (p n : ℕ) (input dims : Val) (type device : ℕ) (w : World)
        → Apart old p
        → Grown old w
        → Keeps (IsGrown old) (fill_tensor api b p n input dims type device w)
    unfolding fill_tensor
    fill_tensor-Grown p n input dims type device w apart g =
        search (reading_rules, store-Grown, add_tensor) depth 16

    pub tensor_of_js-Grown :
        (input dims : Val) (type : Text) (device : Ptr) (w : World)
        → Grown old w
        → Keeps (IsGrown old) (tensor_of_js api b input dims type device w)
    unfolding tensor_of_js
    tensor_of_js-Grown input dims type device w g =
        Run-bind (malloc-Grown api.can_alloc (b.byte_length input) w g)
          λ p v (k, apart, same). search (kept_rules, unsupported-Kept, fill_tensor-Grown) depth 12

    pub data_buffer_of_js-Grown :
        (input : Val) (w : World)
        → Grown old w
        → Keeps (IsGrown old) (data_buffer_of_js api b input w)
    unfolding data_buffer_of_js
    data_buffer_of_js-Grown input w g =
        Run-bind (malloc-Grown api.can_alloc (b.byte_length input) w g) λ p v (k, apart, same).
          elim (Bool-cases (p == null)) [
            | inl e ↦ rw e (stops k)
            | inr e ↦ rw e (
                Kept-bind (store-Grown p (b.elements input) v apart k) λ _ u k.
                  Run-mono
                    (new_buffer-Grown (record { data_ptr = p; size = b.byte_length input }) u apart
                      k)
                    λ q x k. k.0)
          ]

    fetch_flat-Grown :
        (t : Tensor) (w : World)
        → t.data_ptr ≡ null
        → Grown old w
        → Keeps (IsGrown old) (fetch_flat api b t w)
    unfolding fetch_flat
    fetch_flat-Grown t w bare g =
        let apart : Apart old t.data_ptr = λ ne. absurd (ne bare) in
        search (reading_rules, read_buffer-Grown, get_status_message-Kept) depth 12

    pub to_flat_array-Grown :
        (p : Ptr) (w : World) → Grown old w → Keeps (IsGrown old) (to_flat_array api b p w)
    unfolding to_flat_array
    to_flat_array-Grown p w g = Kept-bind (get_tensor-Kept p w g) λ t v k.
        elim (Bool-cases (t.data_ptr == null)) [
          | inl e ↦ rw e (
              Kept-bind (fetch_flat-Grown t v (ground arith) k)
                λ _ u k. flat_array-Kept api b t _ u k)
          | inr e ↦ rw e (flat_array-Kept api b t _ v k)
        ]
