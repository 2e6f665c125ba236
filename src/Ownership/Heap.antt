-- ===== src/Ownership/Heap.antt =====
-- The invariant of host memory and of the objects that own it.
use nx_iree.Base.{◌<◌, ◌≡◌, refl, ◌≢◌, Option, none, some, List, length, arith}
use nx_iree.Machine.{Ptr, null, Cell, Tensor, DataBuffer, World, start}

abbrev pub Blocks : Type 0
Blocks = Ptr → Option (List Cell)

abbrev pub Tensors : Type 0
Tensors = Ptr → Option Tensor

abbrev pub Buffers : Type 0
Buffers = Ptr → Option DataBuffer

-- Host copies and the blocks of data buffers are allocated and have the size that is written beside
-- them, nobody shares one, a view comes with its device, and nothing lies above the last pointer
-- that was handed out.
pub record IsOwned (blocks : Blocks) (tensors : Tensors) (buffers : Buffers) (last : Ptr)
    : Type 0 where
  pub held :
      (p : Ptr) (t : Tensor)
      → tensors p ≡ some t
      → t.data_ptr ≢ null
      → (b : List Cell) × (blocks t.data_ptr ≡ some b) × (length b ≡ t.size)
  pub apart :
      (p q : Ptr) (t u : Tensor)
      → tensors p ≡ some t
      → tensors q ≡ some u
      → t.data_ptr ≢ null
      → t.data_ptr ≡ u.data_ptr
      → p ≡ q
  pub placed :
      (p : Ptr) (t : Tensor)
      → tensors p ≡ some t
      → t.buffer_view ≢ null
      → (d : Ptr) × (t.device ≡ some d)
  pub real : (p : Ptr) (b : DataBuffer) → buffers p ≡ some b → b.data_ptr ≢ null
  pub filled :
      (p : Ptr) (b : DataBuffer)
      → buffers p ≡ some b
      → (c : List Cell) × (blocks b.data_ptr ≡ some c)
  pub alone :
      (p q : Ptr) (b : DataBuffer) (t : Tensor)
      → buffers p ≡ some b
      → tensors q ≡ some t
      → t.data_ptr ≢ b.data_ptr
  pub unshared :
      (p q : Ptr) (b c : DataBuffer)
      → buffers p ≡ some b
      → buffers q ≡ some c
      → b.data_ptr ≡ c.data_ptr
      → p ≡ q
  pub fresh_block : (q : Ptr) → last < q → blocks q ≡ none
  pub fresh_tensor : (q : Ptr) → last < q → tensors q ≡ none
  pub fresh_buffer : (q : Ptr) → last < q → buffers q ≡ none

abbrev pub Owned : World → Type 0
Owned w = IsOwned w.blocks w.tensors w.buffers w.last

-- No tensor but the one at `p` has the host copy `d`, if that is not null.
abbrev pub Spared : Tensors → Ptr → Ptr → Type 0
Spared tensors p d = (q : Ptr) (u : Tensor) → tensors q ≡ some u → q ≢ p → d ≢ null → u.data_ptr ≢ d

-- A tensor that may stand at `p`.
pub record Fits (blocks : Blocks) (tensors : Tensors) (buffers : Buffers) (p : Ptr) (u : Tensor)
    : Type 0 where
  pub copy :
      u.data_ptr ≢ null → (b : List Cell) × (blocks u.data_ptr ≡ some b) × (length b ≡ u.size)
  pub spared : Spared tensors p u.data_ptr
  pub unbuffered : (q : Ptr) (b : DataBuffer) → buffers q ≡ some b → u.data_ptr ≢ b.data_ptr
  pub device : u.buffer_view ≢ null → (d : Ptr) × (u.device ≡ some d)

pub start-Owned : Owned start
start-Owned = record {
  held = λ p t x ne. absurd (ground arith);
  apart = λ p q t u x y ne same. absurd (ground arith);
  placed = λ p t x ne. absurd (ground arith);
  real = λ p b x. absurd (ground arith);
  filled = λ p b x. absurd (ground arith);
  alone = λ p q b t x y. absurd (ground arith);
  unshared = λ p q b c x y same. absurd (ground arith);
  fresh_block = λ q lt. refl;
  fresh_tensor = λ q lt. refl;
  fresh_buffer = λ q lt. refl;
}
