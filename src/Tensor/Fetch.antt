-- ===== src/Tensor/Fetch.antt =====
-- `read_buffer`, and `serialize` of a tensor whose data is on the device.
use nx_iree.Base.{
  ℕ, ◌≡◌, refl, ◌≢◌, suc, Option, none, some, List, [], ◌∷◌, map, take, true, false, replicate,
  length, arith, length-replicate, take-length, ◌<◌, zero, codes, length-map,
}
use nx_iree.Machine.{Ptr, null, Status, ok_status, Cell, Tensor, World, call_to, ok, update}
use nx_iree.Machine.Memory.{get_tensor, set_tensor, determined, store}
use nx_iree.Machine.Laws.{store-ok, malloc-ok, load-ok, whole_block}
use nx_iree.Api.{Api, TransfersAll}
use nx_iree.Tensor.Lifetime.{with_copy}
use nx_iree.Tensor.{read_buffer, serialize, wire, size_max}

-- Without a view there is nothing to read: the answer is OK, and the output stays as it was.
pub read_buffer-null :
    (api : Api) (d : Option Ptr) (out : Ptr) (n : ℕ) (w : World)
    → read_buffer api d null out n w ≡ ok ok_status w
unfolding read_buffer
read_buffer-null api d out n w = refl

pub take_all : {A : Type 0} (b : List A) (k : ℕ) → length b ≡ k → take k b ≡ b
take_all b k e = rw (← e) (take-length b)

take_nil : (n : ℕ) → take {A = ℕ} n [] ≡ []
take_nil zero = refl
take_nil (suc n) = refl

module _ (api : Api) (d view : Ptr) (w : World) where
  abbrev pub buffer_of : Ptr
  buffer_of = api.view_buffer w.trace view

  -- For `read_buffer`, the size -1 stands for the byte length of the view's buffer.
  pub read_buffer-size_max :
      (out : Ptr)
      → read_buffer api (some d) view out size_max w
        ≡ read_buffer api (some d) view out (api.buffer_byte_length w.trace buffer_of) w
  unfolding read_buffer determined
  read_buffer-size_max out = ground arith

  abbrev pub answer : ℕ → Status × List ℕ
  answer n = api.transfer_d2h w.trace d buffer_of n

  abbrev pub transferred : ℕ → World
  transferred n = record w {
    trace = call_to (codes "iree_hal_device_transfer_d2h") (d ∷ buffer_of ∷ n ∷ []) [] ∷ w.trace;
  }

  -- Without CUDA, a successful `read_buffer` into a block of the size asked for fills it with
  -- the bytes that the device answers, if successful copies write all they were asked for.
  pub read_buffer-ok :
      (out : Ptr) (n : ℕ) (b : List Cell)
      → api.cuda_enabled ≡ false
      → TransfersAll api
      → view ≢ null
      → out ≢ null
      → n ≢ size_max
      → w.blocks out ≡ some b
      → length b ≡ n
      → (answer n).0 ≡ ok_status
      → read_buffer api (some d) view out n w
        ≡ ok ok_status
            (record (transferred n) { blocks = update w.blocks out (some (map some (answer n).1)) })
  unfolding read_buffer determined
  read_buffer-ok out n b host whole nv ne nm hb len fine = ground (
    arith,
    whole w.trace d buffer_of n,
    take_all (answer n).1 n,
    length-map some (answer n).1,
    store-ok out (map some (answer n).1) b (transferred n) ne hb,
  )

  -- A read that writes nothing leaves the output as it was, and passes its status on.
  pub read_buffer-nothing :
      (out : Ptr) (n : ℕ)
      → api.cuda_enabled ≡ false
      → view ≢ null
      → n ≢ size_max
      → (answer n).1 ≡ []
      → read_buffer api (some d) view out n w ≡ ok (answer n).0 (transferred n)
  unfolding read_buffer determined store
  read_buffer-nothing out n host nv nm nothing = ground (arith, take_nil n)

-- A tensor `t` at `p` whose data is only on a device `d` of its own.
pub record OnDevice (p : Ptr) (t : Tensor) (d : Ptr) (w : World) : Type 0 where
  pub here : w.tensors p ≡ some t
  pub no_copy : t.data_ptr ≡ null
  pub viewed : t.buffer_view ≢ null
  pub on : t.device ≡ some d
  pub bounded : t.size < size_max

module _ (api : Api) (p d : Ptr) (t : Tensor) (w : World) where
  -- The state with the host copy that is still to be filled.
  abbrev pub unfilled : World
  unfilled = with_copy p t (replicate t.size none) w

  abbrev pub device_answer : Status × List ℕ
  device_answer = answer api d t.buffer_view unfilled t.size

  -- The state after the copy was filled with `b`.
  abbrev pub filled : List Cell → World
  filled b = record (transferred api d t.buffer_view unfilled t.size) {
    blocks = update unfilled.blocks (suc w.last) (some b);
  }

  -- Without CUDA, a tensor whose data is only on its device is serialised with the bytes that
  -- the device answers, which it keeps as its host copy, if the memory is granted, the copy
  -- succeeds, and successful copies write all they were asked for.
  pub serialize-OnDevice :
      api.cuda_enabled ≡ false
      → TransfersAll api
      → OnDevice p t d w
      → api.can_alloc w.trace t.size ≡ true
      → device_answer.0 ≡ ok_status
      → serialize api p w
        ≡ ok (some (wire t (map some device_answer.1))) (filled (map some device_answer.1))
  unfolding serialize get_tensor set_tensor wire
  serialize-OnDevice host whole o granted fine = ground (
    arith,
    malloc-ok api.can_alloc t.size w granted,
    whole unfilled.trace d (buffer_of api d t.buffer_view unfilled) t.size fine,
    read_buffer-ok api d t.buffer_view unfilled (suc w.last) t.size (replicate t.size none) host
        whole,
    length-replicate {0} {A = Cell} t.size none,
    length-map some device_answer.1,
    load-ok (suc w.last) t.size (map some device_answer.1) (filled (map some device_answer.1)),
    take_all (map some device_answer.1) t.size,
  )

  -- Without CUDA, a copy to the host that fails and writes nothing is reported by `serialize`
  -- once; the host copy stays, and the next `serialize` reports success with bytes that nobody
  -- wrote.
  pub serialize_retry :
      api.cuda_enabled ≡ false
      → OnDevice p t d w
      → api.can_alloc w.trace t.size ≡ true
      → device_answer.0 ≢ ok_status
      → device_answer.1 ≡ []
      → (v : World) × (serialize api p w ≡ ok none v)
        × (serialize api p v ≡ ok (some (wire t (replicate t.size none))) v)
  unfolding serialize get_tensor set_tensor wire
  serialize_retry host o granted bad nothing = (
    transferred api d t.buffer_view unfilled t.size,
    ground (
      arith,
      malloc-ok api.can_alloc t.size w granted,
      read_buffer-nothing api d t.buffer_view unfilled (suc w.last) t.size host o.viewed,
    ),
    ground
        (arith, whole_block (suc w.last) t.size (transferred api d t.buffer_view unfilled t.size)),
  )
