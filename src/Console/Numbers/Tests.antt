-- ===== src/Console/Numbers/Tests.antt =====
-- Numbers as print prints them.
use epic_miner.Common.{ℕ, List, ◌≡◌, refl, codes, c_str}
use epic_miner.Common.Int.{negsuc}
use epic_miner.Pool.Wire.{decimal_loop}
use epic_miner.Console.Printer.{text}
use epic_miner.Console.Numbers.{
  string, size_t, int64_t, uint32_t, double, print_unsigned, print_signed, arg_text,
}

abbrev one_third : ℕ → List ℕ
one_third v = codes "0.3"

numbers :
    (arg_text one_third (size_t 1024) ≡ text (codes "1024"))
    × (arg_text one_third (uint32_t 0) ≡ text (codes "0"))
    × (arg_text one_third (int64_t (negsuc 6)) ≡ text (codes "-7"))
    × (arg_text one_third (double 1) ≡ text (codes "0.3"))
    × (arg_text one_third (string (codes "pool")) ≡ text (codes "pool"))
unfolding arg_text print_unsigned print_signed decimal_loop c_str
numbers = (refl, refl, refl, refl, refl)
