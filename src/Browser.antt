-- ===== src/Browser.antt =====
-- JavaScript values as Embind hands them to cmake/src/emscripten_api.cc, and the two library
-- functions on them that the code relies on.
use nx_iree.Base.{ℕ, List, Text}
use nx_iree.Base.Int.{ℤ}
use nx_iree.Machine.{Cell}

pub record Browser : Type 1 where
  pub Val : Type 0
  -- `v["byteLength"]`.
  pub byte_length : Val → ℕ
  -- The bytes of the vector that `convertJSArrayToNumberVector` makes for the element type.
  pub converted : ℕ → Val → List Cell
  -- The elements of an array of dimensions.
  pub numbers : Val → List ℤ
  -- The bytes that `HEAPU8.set` copies.
  pub elements : Val → List Cell
  -- `std::to_string`.
  pub to_string : ℕ → Text
