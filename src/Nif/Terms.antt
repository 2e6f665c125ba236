-- ===== src/Nif/Terms.antt =====
-- Reading and making terms, and opening the resource types (c_src/nx_iree.cc).
use nx_iree.Base.{
  ℕ, zero, suc, ◌+◌, Option, none, some, List, [], ◌∷◌, Bool, false, Text, codes, take, ◌==◌,
  if◌then◌else◌,
}
use mathlib.Core.Option
use nx_iree.Base.Int.{ℤ, pos, negsuc}
use nx_iree.Machine.{Ptr, M, pure}
use nx_iree.Erlang.{Env, ResourceType, vm_instance, hal_device, driver_registry, tensor}

module _ (e : Env) where
  open e use {Term}

  unfoldable pub error : Text → Term
  error message = e.make_tuple (e.make_atom (codes "error") ∷ e.make_string message ∷ [])

  unfoldable pub ok_atom : Term
  ok_atom = e.make_atom (codes "ok")

  unfoldable pub ok_term : Term → Term
  ok_term term = e.make_tuple (e.make_atom (codes "ok") ∷ term ∷ [])

  -- An argument that must be readable: the handler ends with the message where it is not.
  unfoldable pub argument : {A : Type 0} → Text → Option A → (A → M Term) → M Term
  unfolding error
  argument message none f = pure (error message)
  argument message (some a) f = f a

  -- `make<T>` and `get<T>`, of a resource that holds one pointer.
  abbrev pub make : ResourceType → Ptr → Term
  make t p = e.make_resource t p

  abbrev pub get : ResourceType → Term → Option Ptr
  get t term = e.get_resource t term

  -- `default_dtor<T>`: the destructor of a pointer does nothing.
  unfoldable pub default_dtor : Ptr → M (Unit {0})
  default_dtor p = pure tt

  -- `open_resource<T>`: 1, or -1 where the type could not be opened.
  unfoldable pub open_resource : ResourceType → ℤ
  open_resource t = if e.open_resource_type t then pos 1 else negsuc 0

  -- `!x` of an `int`.
  unfoldable pub is_zero : ℤ → Bool
  is_zero (pos n) = n == 0
  is_zero (negsuc n) = false

  unfoldable pub open_resources : ℤ
  unfolding open_resource is_zero
  open_resources =
      if is_zero (open_resource vm_instance)
      then negsuc 0
      else if is_zero (open_resource hal_device)
      then negsuc 0
      else if is_zero (open_resource driver_registry)
      then negsuc 0
      else if is_zero (open_resource tensor)
      then negsuc 0
      else pos 1

  is_minus_one : ℤ → Bool
  is_minus_one (pos n) = false
  is_minus_one (negsuc n) = n == 0

  unfoldable pub load_nif : ℤ
  unfolding open_resources is_minus_one
  load_nif = if is_minus_one open_resources then negsuc 0 else pos 0

  unfoldable pub upgrade : ℤ
  upgrade = pos 0

  -- The loop of both `get_list`: `none` where an element cannot be read. The fuel is the length.
  unfoldable pub list_loop {ℓ} : {A : Type ℓ} → (Term → Option A) → ℕ → Term → Option (List A)
  list_loop get zero list = some []
  list_loop get (suc fuel) list = elim (e.get_list_cell list) [
    | none ↦ some []
    | some (head, tail) ↦ elim (get head) [
      | none ↦ none
      | some x ↦ Option.map (λ xs. x ∷ xs) (list_loop get fuel tail)
    ]
  ]

  unfoldable pub get_list {ℓ} : {A : Type ℓ} → (Term → Option A) → Term → Option (List A)
  unfolding list_loop
  get_list get list = elim (e.get_list_length list) [
    | none ↦ none
    | some length ↦ list_loop get length list
  ]

  -- `ret > 0`, `ret == 0` and the rest, on what `enif_get_string` returned and wrote.
  string_result : ℤ → List ℕ → Option Text
  string_result (pos zero) written = none
  string_result (pos (suc n)) written = some (take n written)
  string_result (negsuc n) written = some written

  unfoldable pub get_string : Term → Option Text
  unfolding string_result
  get_string term = elim (e.get_list_length term) [
    | none ↦ e.inspect_binary term
    | some len ↦ string_result (e.get_string term (len + 1)).0 (e.get_string term (len + 1)).1
  ]
