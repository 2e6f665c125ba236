-- ===== src/Swift/Layout.antt =====
-- The members of the classes in the two copies of runtime.h: the runtime's, cmake/src/runtime.h, and
-- the one that the Swift API is compiled against. Sizes and alignments are the platform's.
use nx_iree.Base.{
  ℕ, ◌+◌, ◌-◌, ◌*◌, ◌/◌, ◌≡◌, inl, inr, Option, none, some, List, [], ◌∷◌, ◌++◌, Text, Bool-cases,
  codes, text_eq, if◌then◌else◌, arith,
}

-- The types of members; the element types of vectors do not show in the layout.
pub data MemberType : Type 0 where
  string_type pointer_type size_type uint64_type uint32_type vector_type : MemberType

pub record Abi : Type 0 where
  pub size_of : MemberType → ℕ
  pub align_of : MemberType → ℕ

abbrev pub Members : Type 0
Members = List (Text × MemberType)

-- `Driver`, `Device` and `IREETensor` of the runtime.
abbrev pub driver_members : Members
driver_members = (codes "name", string_type) ∷ (codes "full_name", string_type) ∷ []

abbrev pub device_members : Members
device_members =
    (codes "uri", string_type)
    ∷ (codes "ref", pointer_type)
    ∷ (codes "driver_name", string_type)
    ∷ (codes "id", uint64_type)
    ∷ []

abbrev pub tensor_members : Members
tensor_members =
    (codes "data", pointer_type)
    ∷ (codes "size", size_type)
    ∷ (codes "dims", vector_type)
    ∷ (codes "type", uint32_type)
    ∷ (codes "buffer_view", pointer_type)
    ∷ (codes "device", pointer_type)
    ∷ []

-- Those of the copy.
abbrev pub copied_driver_members : Members
copied_driver_members = (codes "name", string_type) ∷ (codes "full_name", string_type) ∷ []

abbrev pub copied_device_members : Members
copied_device_members =
    (codes "uri", string_type)
    ∷ (codes "ref", pointer_type)
    ∷ (codes "driver_name", string_type)
    ∷ []

abbrev pub copied_tensor_members : Members
copied_tensor_members =
    (codes "data", pointer_type)
    ∷ (codes "size", size_type)
    ∷ (codes "dims", vector_type)
    ∷ (codes "type", uint32_type)
    ∷ (codes "buffer_view", pointer_type)
    ∷ (codes "device", pointer_type)
    ∷ []

pub data Class : Type 0 where
  driver device tensor : Class

abbrev pub members : Class → Members
members driver = driver_members
members device = device_members
members tensor = tensor_members

abbrev pub copied_members : Class → Members
copied_members driver = copied_driver_members
copied_members device = copied_device_members
copied_members tensor = copied_tensor_members

module _ (abi : Abi) where
  -- Where a member of the type starts that comes after `at` bytes.
  abbrev aligned : ℕ → MemberType → ℕ
  aligned at type = (at + abi.align_of type - 1) / abi.align_of type * abi.align_of type

  -- Where a member stands, from `at` on.
  unfoldable pub offset : ℕ → Members → Text → Option ℕ
  offset at [] name = none
  offset at ((x, type) ∷ rest) name =
      if text_eq x name
      then some (aligned at type)
      else offset (aligned at type + abi.size_of type) rest name

  -- Members that are added at the end move none of those before.
  offset-append :
      (at o : ℕ) (xs ys : Members) (name : Text)
      → offset at xs name ≡ some o
      → offset at (xs ++ ys) name ≡ some o
  unfolding offset
  offset-append at o [] ys name e = absurd (ground arith)
  offset-append at o ((x, type) ∷ xs) ys name e = elim (Bool-cases (text_eq x name)) [
    | inl found ↦ ground (arith, found)
    | inr other ↦
        rw other
          (offset-append (aligned at type + abi.size_of type) o xs ys name (ground (arith, other)))
  ]

  -- Every member that the copy of runtime.h declares for `Driver`, `Device` or `IREETensor`
  -- stands at the same offset in the runtime's class, whatever the sizes and alignments of the
  -- types are.
  pub offset-copied :
      (c : Class) (name : Text) (o : ℕ)
      → offset 0 (copied_members c) name ≡ some o
      → offset 0 (members c) name ≡ some o
  offset-copied driver name o e = offset-append 0 o copied_driver_members [] name e
  offset-copied device name o e =
      offset-append 0 o copied_device_members ((codes "id", uint64_type) ∷ []) name e
  offset-copied tensor name o e = offset-append 0 o copied_tensor_members [] name e
