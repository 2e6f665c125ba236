-- ===== src/Machine/Memory.antt =====
-- The C and C++ library's memory operations, and objects on the heap. A copy of no bytes touches
-- no memory. The argument `can_alloc` says, from the history, whether an allocation succeeds.
use nx_iree.Base.{
  ℕ, suc, Option, none, some, List, [], ◌++◌, Bool, length, take, drop, replicate, ◌==◌, leb,
  if◌then◌else◌,
}
use nx_iree.Machine.{
  Ptr, null, Cell, Tensor, Device, DataBuffer, host_alloc, Trace, M, pure, ◌>>=◌, ◌>>◌, fail,
  stop_with, bad_alloc, log, ask, update, null_deref, out_of_bounds, use_after_free, double_free,
  uninitialised,
}

add_block : List Cell → M Ptr
add_block b w =
    pure (suc w.last)
      (record w { last = suc w.last; blocks = update w.blocks (suc w.last) (some b) })

unfoldable pub malloc : (Trace → ℕ → Bool) → ℕ → M Ptr
unfolding add_block
malloc can_alloc n = do
  granted ← ask (λ t. can_alloc t n)
  log (host_alloc n)
  if granted then add_block (replicate n none) else pure null

-- `operator new`, which throws where `malloc` returns null.
unfoldable pub operator_new : (Trace → ℕ → Bool) → ℕ → M Ptr
unfolding malloc
operator_new can_alloc n = do
  p ← malloc can_alloc n
  if p == null then stop_with bad_alloc else pure p

set_block : Ptr → Option (List Cell) → M (Unit {0})
set_block p b w = pure tt (record w { blocks = update w.blocks p b })

free_block : Ptr → Option (List Cell) → M (Unit {0})
unfolding set_block
free_block p none = fail double_free
free_block p (some b) = set_block p none

unfoldable pub free : Ptr → M (Unit {0})
unfolding free_block
free p w = (if p == null then pure tt else free_block p (w.blocks p)) w

load_block : ℕ → Option (List Cell) → M (List Cell)
load_block n none = fail use_after_free
load_block n (some b) = if leb n (length b) then pure (take n b) else fail out_of_bounds

-- The first `n` bytes behind `p`.
unfoldable pub load : Ptr → ℕ → M (List Cell)
unfolding load_block
load p n w =
    (if n == 0 then pure [] else if p == null then fail null_deref else load_block n (w.blocks p)) w

store_block : Ptr → List Cell → Option (List Cell) → M (Unit {0})
unfolding set_block
store_block p cs none = fail use_after_free
store_block p cs (some b) =
    if leb (length cs) (length b)
    then set_block p (some (cs ++ drop (length cs) b))
    else fail out_of_bounds

-- Writes `cs` at `p`.
unfoldable pub store : Ptr → List Cell → M (Unit {0})
unfolding store_block
store p cs w =
    (if length cs == 0
        then pure tt
        else if p == null
        then fail null_deref
        else store_block p cs (w.blocks p))
      w

-- The next `n` bytes of a buffer that is read at a moving offset, and those behind them.
unfoldable pub split_at : ℕ → List Cell → M (List Cell × List Cell)
split_at n b = if leb n (length b) then pure (take n b, drop n b) else fail out_of_bounds

unfoldable pub new_tensor : Tensor → M Ptr
new_tensor t w =
    pure (suc w.last)
      (record w { last = suc w.last; tensors = update w.tensors (suc w.last) (some t) })

object : {A : Type 0} → Option A → M A
object none = fail use_after_free
object (some a) = pure a

unfoldable pub get_tensor : Ptr → M Tensor
unfolding object
get_tensor p w = object (w.tensors p) w

-- Assigns the members of the tensor object at `p`.
unfoldable pub set_tensor : Ptr → Tensor → M (Unit {0})
set_tensor p t w = pure tt (record w { tensors = update w.tensors p (some t) })

-- The storage of the tensor object itself is given back.
unfoldable pub free_tensor : Ptr → M (Unit {0})
free_tensor p w = pure tt (record w { tensors = update w.tensors p none })

unfoldable pub new_device : Device → M Ptr
new_device d w =
    pure (suc w.last)
      (record w { last = suc w.last; devices = update w.devices (suc w.last) (some d) })

unfoldable pub get_device : Ptr → M Device
unfolding object
get_device p w = object (w.devices p) w

unfoldable pub set_device : Ptr → Device → M (Unit {0})
set_device p d w = pure tt (record w { devices = update w.devices p (some d) })

unfoldable pub free_device : Ptr → M (Unit {0})
free_device p w = pure tt (record w { devices = update w.devices p none })

unfoldable pub new_buffer : DataBuffer → M Ptr
new_buffer b w =
    pure (suc w.last)
      (record w { last = suc w.last; buffers = update w.buffers (suc w.last) (some b) })

unfoldable pub get_buffer : Ptr → M DataBuffer
unfolding object
get_buffer p w = object (w.buffers p) w

-- Assigns the members of the data buffer at `p`.
unfoldable pub set_buffer : Ptr → DataBuffer → M (Unit {0})
set_buffer p b w = pure tt (record w { buffers = update w.buffers p (some b) })

unfoldable pub free_buffer : Ptr → M (Unit {0})
free_buffer p w = pure tt (record w { buffers = update w.buffers p none })

-- A value is used; an indeterminate one may not be.
unfoldable pub determined : {A : Type 0} → Option A → M A
determined none = fail uninitialised
determined (some a) = pure a
