-- ===== src/Tests/Names.antt =====
-- The theorems on type names at concrete inputs.
use nx_iree.Base.{◌↔◌, ◌≡◌, ◌≢◌, refl, inl, codes}
use nx_iree.Types.{uint_8, type_none, nx_type_to_iree_type, iree_type_to_nx_type}
use nx_iree.Types.Table.{Known, Known-iff, iree_type-nx_type}

Known-iff_example :
    Known (codes "u8") uint_8
    ↔ ((nx_type_to_iree_type (codes "u8") ≡ uint_8) × (uint_8 ≢ type_none))
Known-iff_example = Known-iff (codes "u8") uint_8

iree_type-nx_type_example :
    (iree_type_to_nx_type (nx_type_to_iree_type (codes "u8")) ≡ codes "u8")
    × (nx_type_to_iree_type (iree_type_to_nx_type uint_8) ≡ uint_8)
iree_type-nx_type_example = iree_type-nx_type (codes "u8") uint_8 (inl (refl, refl))
