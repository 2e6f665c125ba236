-- ===== src/Types.antt =====
-- Element types: `nx_type_to_iree_type` of cmake/src/runtime.cc and `iree_type_to_nx_type` of
-- c_src/nx_iree.cc. The codes are those of IREE's hal/buffer_view.h.
pub mod Table
use nx_iree.Base.{ℕ, ◌+◌, ◌*◌, ◌^◌, Text, codes, text_eq, ◌==◌, if◌then◌else◌}

-- `IREE_HAL_ELEMENT_TYPE_VALUE`: the numerical type stands above 24 bits of bit count.
abbrev pub type_value : ℕ → ℕ → ℕ
type_value numerical bits = numerical * 2 ^ 24 + bits

abbrev pub type_none : ℕ
type_none = 0

abbrev pub int_8 : ℕ
int_8 = type_value 0x10 8

abbrev pub int_16 : ℕ
int_16 = type_value 0x10 16

abbrev pub int_32 : ℕ
int_32 = type_value 0x10 32

abbrev pub int_64 : ℕ
int_64 = type_value 0x10 64

abbrev pub uint_8 : ℕ
uint_8 = type_value 0x12 8

abbrev pub uint_16 : ℕ
uint_16 = type_value 0x12 16

abbrev pub uint_32 : ℕ
uint_32 = type_value 0x12 32

abbrev pub uint_64 : ℕ
uint_64 = type_value 0x12 64

abbrev pub bfloat_16 : ℕ
bfloat_16 = type_value 0x22 16

abbrev pub float_16 : ℕ
float_16 = type_value 0x21 16

abbrev pub float_32 : ℕ
float_32 = type_value 0x21 32

abbrev pub float_64 : ℕ
float_64 = type_value 0x21 64

abbrev pub complex_float_64 : ℕ
complex_float_64 = type_value 0x23 64

abbrev pub complex_float_128 : ℕ
complex_float_128 = type_value 0x23 128

unfoldable pub nx_type_to_iree_type : Text → ℕ
nx_type_to_iree_type type =
    if text_eq type (codes "s8")
    then int_8
    else if text_eq type (codes "s16")
    then int_16
    else if text_eq type (codes "s32")
    then int_32
    else if text_eq type (codes "s64")
    then int_64
    else if text_eq type (codes "u8")
    then uint_8
    else if text_eq type (codes "u16")
    then uint_16
    else if text_eq type (codes "u32")
    then uint_32
    else if text_eq type (codes "u64")
    then uint_64
    else if text_eq type (codes "bf16")
    then bfloat_16
    else if text_eq type (codes "f16")
    then float_16
    else if text_eq type (codes "f32")
    then float_32
    else if text_eq type (codes "f64")
    then float_64
    else if text_eq type (codes "c64")
    then complex_float_64
    else if text_eq type (codes "c128")
    then complex_float_128
    else type_none

unfoldable pub iree_type_to_nx_type : ℕ → Text
iree_type_to_nx_type type =
    if type == int_8
    then codes "i8"
    else if type == int_16
    then codes "i16"
    else if type == int_32
    then codes "i32"
    else if type == int_64
    then codes "i64"
    else if type == uint_8
    then codes "u8"
    else if type == uint_16
    then codes "u16"
    else if type == uint_32
    then codes "u32"
    else if type == uint_64
    then codes "u64"
    else if type == bfloat_16
    then codes "bf16"
    else if type == float_16
    then codes "f16"
    else if type == float_32
    then codes "f32"
    else if type == float_64
    then codes "f64"
    else if type == complex_float_64
    then codes "c64"
    else if type == complex_float_128
    then codes "c128"
    else codes "invalid_type"
