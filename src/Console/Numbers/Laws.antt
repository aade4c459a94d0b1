-- ===== src/Console/Numbers/Laws.antt =====
-- No number is cut by the buffer.
use epic_miner.Common.{
  ℕ, zero, suc, ◌+◌, ◌/◌, ◌%◌, ◌≤◌, ◌≡◌, refl, ap, inl, inr, List, [], ◌∷◌, length, take, ltb,
  Bool-cases, arith,
}
use epic_miner.Common.Int.{ℤ, pos, negsuc}
use epic_miner.Pool.Wire.{decimal_loop}
use epic_miner.Console.Printer.{text}
use epic_miner.Console.Numbers.{size_t, int64_t, uint32_t, print_unsigned, print_signed, arg_text}

length-decimal_loop : (n x : ℕ) (rest : List ℕ) → length (decimal_loop n x rest) ≤ n + length rest
unfolding decimal_loop
length-decimal_loop zero x rest = omega arith
length-decimal_loop (suc n) x rest =
    let later = length-decimal_loop n (x / 10) ((b'0' + x % 10) ∷ rest) in
    elim (Bool-cases (ltb x 10)) [
      | inl last ↦ rw (last) (omega arith)
      | inr more ↦ rw (more) (omega (arith, later))
    ]

take_all : (n : ℕ) (xs : List ℕ) → length xs ≤ n → take n xs ≡ xs
take_all zero [] h = refl
take_all (suc n) [] h = refl
take_all zero (x ∷ xs) h = absurd (omega arith)
take_all (suc n) (x ∷ xs) h = ap (◌∷◌ x) (take_all n xs (omega arith))

module _ {D : Type 0} (print_double : D → List ℕ) where
  -- The 32 bytes of the buffer hold every number of the three types: it is printed whole.
  arg_text_whole :
      (n : ℕ) (z : ℤ)
      → (arg_text print_double (size_t n) ≡ text (print_unsigned n))
        × (arg_text print_double (uint32_t n) ≡ text (print_unsigned n))
        × (arg_text print_double (int64_t z) ≡ text (print_signed z))
  unfolding arg_text print_unsigned print_signed
  arg_text_whole n (pos m) = (
    ap text (take_all 31 _ (omega (arith, length-decimal_loop 20 n []))),
    ap text (take_all 31 _ (omega (arith, length-decimal_loop 20 n []))),
    ap text (take_all 31 _ (omega (arith, length-decimal_loop 20 m []))),
  )
  arg_text_whole n (negsuc m) = (
    ap text (take_all 31 _ (omega (arith, length-decimal_loop 20 n []))),
    ap text (take_all 31 _ (omega (arith, length-decimal_loop 20 n []))),
    ap text (take_all 31 _ (omega (arith, length-decimal_loop 20 (m + 1) []))),
  )
