-- ===== src/Console/Numbers.antt =====
-- console.hpp: parse_print_arg of numbers and of std::string. What snprintf makes of a double is an
-- argument; `buf` has 32 bytes.
pub mod Laws
mod Tests
use epic_miner.Common.{ℕ, ◌+◌, List, [], ◌∷◌, take, c_str}
use epic_miner.Common.Int.{ℤ, pos, negsuc}
use epic_miner.Pool.Wire.{decimal_loop}
use epic_miner.Console.Printer.{Arg, text}

-- An argument of print, by its C++ type.
pub data PrintArg (D : Type 0) : Type 0 where
  double : D → PrintArg D
  string : List ℕ → PrintArg D
  size_t : ℕ → PrintArg D
  int64_t : ℤ → PrintArg D
  uint32_t : ℕ → PrintArg D

-- `%lu` and `%u`; the digits of a number below 10^20.
pub print_unsigned : ℕ → List ℕ
print_unsigned n = decimal_loop 20 n []

-- `%ld`
pub print_signed : ℤ → List ℕ
unfolding print_unsigned
print_signed (pos n) = print_unsigned n
print_signed (negsuc n) = b'-' ∷ print_unsigned (n + 1)

-- What snprintf leaves in `buf`.
abbrev in_buf : List ℕ → List ℕ
in_buf str = take 31 str

module _ {D : Type 0} (print_double : D → List ℕ) where
  pub arg_text : PrintArg D → Arg
  unfolding print_unsigned print_signed
  arg_text (double v) = text (in_buf (print_double v))
  arg_text (string str) = text (c_str str)
  arg_text (size_t n) = text (in_buf (print_unsigned n))
  arg_text (int64_t n) = text (in_buf (print_signed n))
  arg_text (uint32_t n) = text (in_buf (print_unsigned n))
