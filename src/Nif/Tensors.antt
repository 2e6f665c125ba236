-- ===== src/Nif/Tensors.antt =====
-- The handlers on tensors of c_src/nx_iree.cc: `read_buffer_nif`, `allocate_buffer`,
-- `deallocate_buffer`, `serialize_tensor` and `deserialize_tensor`. The arguments are those that
-- the emulator passes, as many as the function table says.
use nx_iree.Base.{
  ℕ, Option, none, some, List, [], ◌∷◌, map, Text, codes, length, ◌==◌, if◌then◌else◌,
}
use nx_iree.Base.Int.{ℤ, pos, negsuc, to_i64, to_u64}
use nx_iree.Machine.{Ptr, null, Cell, Tensor, M, pure, ◌>>=◌, ◌>>◌, fail, null_deref}
use nx_iree.Machine.Memory.{malloc, load, store, get_tensor}
use nx_iree.Api.{Api, is_ok}
use nx_iree.Types.{type_none, nx_type_to_iree_type}
use nx_iree.Status.{get_status_message}
use nx_iree.Tensor.{tensor_of_data, deserialize, deallocate, serialize, read_buffer}
use nx_iree.Erlang.{Env, hal_device, tensor}
use nx_iree.Nif.Terms.{argument, make, get, error, ok_atom, ok_term, get_list, get_string}

module _ (api : Api) (e : Env) where
  open e use {Term}

  -- `-1` stands for the size of the tensor.
  unfoldable pub requested : ℤ → Tensor → ℤ
  requested (pos n) t = pos n
  requested (negsuc n) t = if n == 0 then to_i64 t.size else negsuc n

  -- The copy into the new binary, and the answer.
  unfoldable pub read_into : Ptr → Tensor → Ptr → ℕ → M Term
  read_into device t binary n =
      if t.buffer_view == null
      then (do
        bytes ← load t.data_ptr n
        store binary bytes
        contents ← load binary n
        pure (ok_term e (e.make_binary contents)))
      else (do
        status ← read_buffer api (some device) t.buffer_view binary n
        if is_ok status
            then (do contents ← load binary n; pure (ok_term e (e.make_binary contents)))
            else (do message ← get_status_message api status; pure (error e message)))

  unfoldable pub read_checked : Ptr → Ptr → ℤ → M Term
  unfolding requested read_into
  read_checked device input num_bytes = do
    t ← get_tensor input
    let n = to_u64 (requested num_bytes t)
    binary ← malloc api.can_alloc n
    if binary == null
        then pure (error e (codes "unable to allocate binary"))
        else read_into device t binary n

  unfoldable pub read_buffer_nif : Term → Term → Term → M Term
  unfolding read_checked
  read_buffer_nif a0 a1 a2 = argument e (codes "invalid device") (get e hal_device a0) λ device.
      argument e (codes "invalid input") (get e tensor a1) λ input.
        argument e (codes "invalid num_bytes") (e.get_int64 a2)
          λ num_bytes. read_checked device input num_bytes

  unfoldable pub allocate_checked : List ℕ → List ℤ → Text → M Term
  allocate_checked binary dims type_string =
      let type = nx_type_to_iree_type type_string in
      if type == type_none then pure (error e (codes "invalid type")) else (do
        input ← tensor_of_data api (map some binary) (length binary) dims type
        pure (ok_term e (make e tensor input)))

  unfoldable pub allocate_buffer : List Term → M Term
  unfolding allocate_checked
  allocate_buffer (a0 ∷ a1 ∷ a2 ∷ a3 ∷ []) =
      argument e (codes "unable to read input data") (e.inspect_binary a0) λ binary.
        argument e (codes "unable to read device") (get e hal_device a1) λ device.
          argument e (codes "unable to read dimensions") (get_list e e.get_int64 a2) λ dims.
            argument e (codes "unable to read type") (get_string e a3)
              λ type_string. allocate_checked binary dims type_string
  allocate_buffer _ = pure (error e (codes "invalid number of arguments"))

  unfoldable pub deallocate_buffer : List Term → M Term
  deallocate_buffer (a0 ∷ []) =
      argument e (codes "invalid input") (get e tensor a0)
        λ input. (do deallocate input; pure (ok_atom e))
  deallocate_buffer _ = pure (error e (codes "invalid number of arguments"))

  -- `serialized->size()` is read before anything is tested.
  unfoldable pub serialized_binary : Option (List Cell) → M Term
  serialized_binary none = fail null_deref
  serialized_binary (some serialized) = do
    binary ← malloc api.can_alloc (length serialized)
    if binary == null then pure (error e (codes "unable to allocate binary")) else (do
      store binary serialized
      contents ← load binary (length serialized)
      pure (ok_term e (e.make_binary contents)))

  unfoldable pub serialize_tensor : List Term → M Term
  unfolding serialized_binary
  serialize_tensor (a0 ∷ []) =
      argument e (codes "invalid input") (get e tensor a0)
        λ input. (do serialized ← serialize api input; serialized_binary serialized)
  serialize_tensor _ = pure (error e (codes "invalid number of arguments"))

  unfoldable pub deserialize_tensor : List Term → M Term
  deserialize_tensor (a0 ∷ []) =
      argument e (codes "invalid input") (e.inspect_binary a0)
        λ input. (do new ← deserialize api (map some input); pure (ok_term e (make e tensor new)))
  deserialize_tensor _ = pure (error e (codes "invalid number of arguments"))
