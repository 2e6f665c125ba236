-- ===== src/Swift/Images.antt =====
-- `nx_iree_image_call`: the amount of noise has four bytes, and eight are read.
use nx_iree.Base.{ℕ, zero, suc, some, List, [], ◌∷◌, map, arith}
use nx_iree.Base.Int.{ℤ, to_i64}
use nx_iree.Machine.Post.{Meets, ends, stops, faults, of_Post, Meets-bind}
use nx_iree.Machine.{M, Ptr, Cell, World, Res, ok, stop, fault, and_then}
use nx_iree.Machine.Memory.{malloc, store, split_at, new_tensor}
use nx_iree.Api.{Api}
use nx_iree.Tensor.Bytes.{le_bytes, length-le_bytes}
use nx_iree.Tensor.{tensor_of_data}
use nx_iree.Types.{float_32, uint_8, uint_32}
use nx_iree.Swift.{image_call, image_inputs, read_dims, product}

-- A run ends in undefined behaviour.
abbrev pub IsFault : {A : Type 0} → Res A → Type 0
IsFault (ok a w) = ⊥
IsFault (stop e w) = ⊥
IsFault (fault x) = Unit {0}

IsFault-bind : {A B : Type 0} (r : Res A) (f : A → M B) → IsFault r → IsFault (and_then r f)
IsFault-bind (ok a w) f h = absurd h
IsFault-bind (stop e w) f h = absurd h
IsFault-bind (fault x) f h = tt

-- It ends in undefined behaviour, if what follows does; it has no early return of its own.
IsFault-after :
    {A B : Type 0} {r : Res A} (f : A → M B)
    → Meets (λ a w. Unit {0}) (λ e w. ⊥) r
    → ((a : A) (w : World) → IsFault (f a w))
    → IsFault (and_then r f)
IsFault-after f (ends p) h = h _ _
IsFault-after f (stops p) h = absurd p
IsFault-after f faults h = tt

read_dims-runs :
    (n : ℕ) (dims : List ℕ) (w : World) → Meets (λ a v. Unit {0}) (λ e v. ⊥) (read_dims n dims w)
unfolding read_dims
read_dims-runs zero dims w = ends tt
read_dims-runs (suc n) [] w = faults
read_dims-runs (suc n) (d ∷ dims) w = Meets-bind (read_dims-runs n dims w) λ ds v h. ends tt

module _ (api : Api) where
  tensor_of_data-runs :
      (src : List Cell) (n : ℕ) (dims : List ℤ) (type : ℕ) (w : World)
      → Meets (λ p v. Unit {0}) (λ e v. ⊥) (tensor_of_data api src n dims type w)
  unfolding tensor_of_data malloc split_at store new_tensor
  tensor_of_data-runs src n dims type w = of_Post _ (ground arith)

  noise-IsFault :
      (noise : ℕ) (w : World) → IsFault (tensor_of_data api (le_bytes 4 noise) 8 [] float_32 w)
  unfolding tensor_of_data malloc split_at
  noise-IsFault noise w = ground (arith, length-le_bytes 4 noise)

  image_inputs-IsFault :
      (input : List Cell) (n : ℕ) (dims : List ℕ) (seed noise : ℕ) (w : World)
      → IsFault (image_inputs api input n dims seed noise w)
  unfolding image_inputs
  image_inputs-IsFault input n dims seed noise w =
      IsFault-after _ (tensor_of_data-runs input n (map to_i64 dims) uint_8 w) λ image v.
        IsFault-after _ (tensor_of_data-runs (le_bytes 4 seed) 4 [] uint_32 v)
          λ seed_tensor u. IsFault-bind _ _ (noise-IsFault noise u)

  -- `nx_iree_image_call` with an image ends in undefined behaviour, whatever its arguments and
  -- whatever the library does: the amount of noise has four bytes, of which eight are copied.
  pub image_call-IsFault :
      (vm device : Ptr) (bytecode input_dims : List ℕ) (input : List Cell) (error_message : Ptr)
      (seed noise : ℕ) (w : World)
      → IsFault
          (image_call api vm device bytecode input_dims (some input) error_message seed noise w)
  unfolding image_call product
  image_call-IsFault vm device bytecode input_dims input error_message seed noise w =
      IsFault-after _ (read_dims-runs 3 input_dims w)
        λ dims v. IsFault-bind _ _ (image_inputs-IsFault input (product 1 dims) dims seed noise v)
