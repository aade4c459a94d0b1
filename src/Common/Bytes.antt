-- ===== src/Common/Bytes.antt =====
-- Bytes and C strings as lists of numbers, and checks of a whole byte range by evaluation.
use Prim.Native.Char.{code}
use Prim.Native.String.{String}
use Prim.Native.Nat.{ℕ, zero, suc, ◌<◌}
use mathlib.Core.Path.{◌≡◌, ap}
use mathlib.Core.Logic.{◌↔◌}
use mathlib.Core.Bool.{Bool, true, false, ◌&&◌}
use mathlib.Core.List.{List, [], ◌∷◌}
use native.Mathlib.Omega.{arith}
use epic_miner.Common.Tests.{◌==◌, if◌then◌else◌, ==_iff}

-- The bytes of a text literal.
abbrev pub codes : String → List ℕ
codes String.[] = []
codes (String.◌∷◌ c s) = code c ∷ codes s

-- Equality of two byte sequences of known lengths.
unfoldable pub bytes_eq : List ℕ → List ℕ → Bool
bytes_eq [] [] = true
bytes_eq [] (y ∷ ys) = false
bytes_eq (x ∷ xs) [] = false
bytes_eq (x ∷ xs) (y ∷ ys) = (x == y) && bytes_eq xs ys

pub bytes_eq_iff : (xs ys : List ℕ) → (bytes_eq xs ys ≡ true) ↔ (xs ≡ ys)
unfolding bytes_eq
bytes_eq_iff [] [] = ground arith
bytes_eq_iff [] (y ∷ ys) = ground arith
bytes_eq_iff (x ∷ xs) [] = ground arith
bytes_eq_iff (x ∷ xs) (y ∷ ys) = ground (arith, bytes_eq_iff xs ys, ==_iff x y)

-- What a C function sees of a buffer: the bytes before the first NUL.
unfoldable pub c_str : List ℕ → List ℕ
c_str [] = []
c_str (x ∷ xs) = if x == 0 then [] else x ∷ c_str xs

-- strcmp(a, b) == 0
unfoldable pub strcmp_eq : List ℕ → List ℕ → Bool
unfolding c_str bytes_eq
strcmp_eq a b = bytes_eq (c_str a) (c_str b)

unfoldable pub all_below : ℕ → (ℕ → Bool) → Bool
all_below zero test = true
all_below (suc bound) test = all_below bound test && test bound

pub all_below_sound :
    (bound : ℕ) (test : ℕ → Bool)
    → all_below bound test ≡ true
    → (c : ℕ) → c < bound
    → test c ≡ true
unfolding all_below
all_below_sound zero test checked c small = absurd (omega arith)
all_below_sound (suc bound) test checked c small = ground (
  arith,
  λ (h : all_below bound test ≡ true) (lt : c < bound). all_below_sound bound test h c lt,
  λ (same : c ≡ bound). ap test same,
)
