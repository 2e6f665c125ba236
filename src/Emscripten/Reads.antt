-- ===== src/Emscripten/Reads.antt =====
-- What reaches the browser: outputs, data buffers, typed arrays and messages.
use nx_iree.Base.{
  length, ℕ, suc, ◌<◌, ◌≡◌, ◌≢◌, none, some, List, [], ◌∷◌, ◌++◌, map, true, false, Text, codes,
  length-map, replicate, length-replicate, arith,
}
use nx_iree.Machine.{
  Ptr, null, Status, ok_status, Cell, Device, Tensor, World, status_free, ok, fault, null_deref,
  update, pure, ◌>>=◌, ◌>>◌,
}
use nx_iree.Machine.Memory.{
  store, get_tensor, set_tensor, get_device, determined, new_buffer, get_buffer,
}
use nx_iree.Machine.Laws.{with_block, malloc-ok}
use nx_iree.Api.{Api, TransfersAll}
use nx_iree.Status.{get_status_message}
use nx_iree.Tensor.{read_buffer, size_max, transfer_d2h}
use nx_iree.Tensor.Fetch.{
  read_buffer-nothing, read_buffer-ok, buffer_of, answer, transferred, OnDevice, take_all,
}
use nx_iree.Browser.{Browser}
use nx_iree.Emscripten.{fetch_output, status_message, drop_status, read_data, new_data_buffer}
use nx_iree.Emscripten.Values.{to_flat_array, fetch_flat}

module _ (api : Api) where
  -- A status handle whose message was read frees its status a second time when it is dropped,
  -- if the library can format the status.
  pub status_message-drop_status :
      (s : Status) (text : Text) (w : World)
      → api.status_to_string w.trace s ≡ some text
      → (status_message api s >>= λ message. drop_status s >> pure message) w
        ≡ ok
            (codes "Failed to execute IREE runtime due to error: " ++ text)
            (record w { trace = status_free s ∷ status_free s ∷ w.trace })
  unfolding status_message drop_status get_status_message
  status_message-drop_status s text w h = ground (arith, h)

  -- The copy of the output: nothing is written yet.
  abbrev pub output_size : Tensor → World → ℕ
  output_size t w = api.buffer_byte_length w.trace (api.view_buffer w.trace t.buffer_view)

  abbrev pub unread : Ptr → Tensor → World → World
  unread p t w = record (with_block w (output_size t w) (replicate (output_size t w) none)) {
    tensors =
        update w.tensors p (some (record t { size = output_size t w; data_ptr = suc w.last }));
  }

  -- Without CUDA, when the copy of an output of `nx_iree_call` writes nothing, the output is
  -- kept with a host copy that nobody wrote, and whatever status the copy had is lost.
  pub fetch_output-ignored :
      (device p d : Ptr) (o : Device) (t : Tensor) (w : World)
      → api.cuda_enabled ≡ false
      → w.tensors p ≡ some t
      → w.devices device ≡ some o
      → o.ref ≡ some d
      → t.buffer_view ≢ null
      → output_size t w < size_max
      → api.can_alloc w.trace (output_size t w) ≡ true
      → (answer api d t.buffer_view (unread p t w) (output_size t w)).1 ≡ []
      → fetch_output api device p w
        ≡ ok tt (transferred api d t.buffer_view (unread p t w) (output_size t w))
  unfolding fetch_output get_tensor set_tensor get_device
  fetch_output-ignored device p d o t w host here at ref viewed small granted nothing = ground (
    arith,
    malloc-ok api.can_alloc (output_size t w) w granted,
    read_buffer-nothing api d t.buffer_view (unread p t w) (suc w.last) (output_size t w) host
        viewed,
  )

  into_null :
      (d view n : ℕ) (w : World)
      → api.cuda_enabled ≡ false
      → TransfersAll api
      → view ≢ null
      → 0 < n
      → n < size_max
      → (answer api d view w n).0 ≡ ok_status
      → read_buffer api (some d) view null n w ≡ fault null_deref
  unfolding read_buffer transfer_d2h store determined
  into_null d view n w host whole viewed some_bytes small fine = ground (
    arith,
    whole w.trace d (buffer_of api d view w) n fine,
    take_all (answer api d view w n).1 n,
    length-map some (answer api d view w n).1,
  )

  -- Without CUDA, `toFlatArray` of a tensor whose data is only on its device copies the data to
  -- the null pointer, if the library answers with all bytes and there are any.
  pub to_flat_array-null :
      (b : Browser) (p d : Ptr) (t : Tensor) (w : World)
      → api.cuda_enabled ≡ false
      → TransfersAll api
      → OnDevice p t d w
      → d ≢ null
      → 0 < t.size
      → (answer api d t.buffer_view w t.size).0 ≡ ok_status
      → to_flat_array api b p w ≡ fault null_deref
  unfolding to_flat_array fetch_flat get_tensor determined
  to_flat_array-null b p d t w host whole o real some_bytes fine = ground (
    arith,
    o.here,
    o.no_copy,
    o.viewed,
    o.on,
    into_null d t.buffer_view t.size w host whole o.viewed some_bytes o.bounded fine,
  )

  -- The state with the data buffer that is still to be filled.
  abbrev pub empty_buffer : ℕ → World → World
  empty_buffer n w = with_block w n (replicate n none)

  -- The buffer's bytes are behind `suc w.last`, and the buffer above them.
  abbrev pub with_buffer : ℕ → World → World
  with_buffer n w = record (empty_buffer n w) {
    last = suc (suc w.last);
    buffers =
        update w.buffers (suc (suc w.last)) (some (record { data_ptr = suc w.last; size = n }));
  }

  abbrev pub read_answer : Ptr → Tensor → ℕ → World → List ℕ
  read_answer d t n w = (answer api d t.buffer_view (with_buffer n w) n).1

  abbrev pub full_buffer : Ptr → Tensor → ℕ → World → World
  full_buffer d t n w = record (transferred api d t.buffer_view (with_buffer n w) n) {
    blocks = update (with_buffer n w).blocks (suc w.last) (some (map some (read_answer d t n w)));
  }

  -- Without CUDA, a `nx_iree_read_buffer` that succeeds answers with a data buffer of the bytes
  -- that the device answers, if the memory is granted and successful copies write all they were
  -- asked for.
  pub read_data-ok :
      (device p d n : ℕ) (o : Device) (t : Tensor) (w : World)
      → api.cuda_enabled ≡ false
      → TransfersAll api
      → w.tensors p ≡ some t
      → w.devices device ≡ some o
      → o.ref ≡ some d
      → t.buffer_view ≢ null
      → n < size_max
      → api.can_alloc w.trace n ≡ true
      → (answer api d t.buffer_view (with_buffer n w) n).0 ≡ ok_status
      → (read_data api device p n w ≡ ok (ok_status, some (suc (suc w.last))) (full_buffer d t n w))
        × (length (read_answer d t n w) ≡ n)
  unfolding read_data new_data_buffer get_tensor get_device new_buffer get_buffer
  read_data-ok device p d n o t w host whole here at ref viewed small granted fine = (
    ground (
      arith,
      malloc-ok api.can_alloc n w granted,
      read_buffer-ok api d t.buffer_view (with_buffer n w) (suc w.last) n (replicate n none) host
          whole viewed (ground arith) (ground arith) (ground arith)
          (length-replicate {0} {A = Cell} n none) fine,
    ),
    whole (with_buffer n w).trace d (buffer_of api d t.buffer_view (with_buffer n w)) n fine,
  )
