-- ===== src/Misc/Hex/Laws.antt =====
-- hex2bin against bin2hex and against the alphabet.
use epic_miner.Common.{
  ℕ, zero, suc, ◌+◌, ◌*◌, ◌/◌, ◌≤◌, ◌<◌, ◌≡◌, refl, ap, subst, ◌∙◌, Bool, true, false, ◌&&◌, List,
  [], ◌∷◌, ◌++◌, arith, All, length, get_or, drop,
}
use native.Mathlib.Numerals.{add-one}
use epic_miner.Misc.Hex.{store, hex_byte, hex2bin_loop, hex2bin, bin2hex}
use epic_miner.Misc.Hex.Digits.{is_hex_digit, hf_hex2bin_error, hex_byte_error, hex_byte-hf_bin2hex}

abbrev pub IsByte : ℕ → Type 0
IsByte x = x < 256

-- `xs` written over `out` from index k on.
write_from : ℕ → List ℕ → List ℕ → List ℕ
write_from k [] out = out
write_from k (x ∷ xs) out = write_from (suc k) xs (store out k x)

write_from-cons :
    (k : ℕ) (o : ℕ) (xs out : List ℕ) → write_from (suc k) xs (o ∷ out) ≡ o ∷ write_from k xs out
unfolding write_from store
write_from-cons k o [] out = refl
write_from-cons k o (x ∷ xs) out = write_from-cons (suc k) o xs (store out k x)

write_from_zero :
    (xs out : List ℕ) → length xs ≤ length out → write_from 0 xs out ≡ xs ++ drop (length xs) out
unfolding write_from store
write_from_zero [] out h = refl
write_from_zero (x ∷ xs) [] h = absurd (omega arith)
write_from_zero (x ∷ xs) (o ∷ out) h =
    write_from-cons 0 x xs out ∙ ap (◌∷◌ x) (write_from_zero xs out (omega arith))

loop-bin2hex :
    (xs : List ℕ) (k : ℕ) (out : List ℕ)
    → All IsByte xs
    → hex2bin_loop (length xs) (bin2hex xs (length xs)) k out ≡ (true, write_from k xs out)
unfolding hex2bin_loop bin2hex write_from
loop-bin2hex [] k out h = refl
loop-bin2hex (x ∷ xs) k out h =
    rw (hex_byte-hf_bin2hex x h.0) (simp add-one (loop-bin2hex xs (suc k) (store out k x) h.1))

-- For bytes that fit in the buffer: decoding what bin2hex prints gives the bytes back, writes them at the front of the buffer and
-- leaves the rest of it alone.
pub hex2bin-bin2hex :
    (xs out : List ℕ)
    → All IsByte xs
    → length xs ≤ length out
    → hex2bin (bin2hex xs (length xs)) (2 * length xs) out ≡ (true, xs ++ drop (length xs) out)
unfolding hex2bin
hex2bin-bin2hex xs out h fits =
    let rounds : (2 * length xs + 1) / 2 ≡ length xs = omega arith in
    rw (rounds, loop-bin2hex xs 0 out h, write_from_zero xs out fits)

get_or-IsByte : (s : List ℕ) (i : ℕ) → All IsByte s → get_or s i 0 < 256
get_or-IsByte [] i h = omega arith
get_or-IsByte (x ∷ s) zero h = h.0
get_or-IsByte (x ∷ s) (suc i) h = get_or-IsByte s i h.1

drop_two-IsByte : (s : List ℕ) → All IsByte s → All IsByte (drop 2 s)
drop_two-IsByte [] h = tt
drop_two-IsByte (x ∷ []) h = tt
drop_two-IsByte (x ∷ y ∷ s) h = h.1.1

-- Every one of the first 2 * n characters is in the alphabet.
unfoldable pub all_hex : ℕ → List ℕ → Bool
all_hex zero s = true
all_hex (suc n) s =
    is_hex_digit (get_or s 0 0) && is_hex_digit (get_or s 1 0) && all_hex n (drop 2 s)

loop_ok :
    (n : ℕ) (s : List ℕ) (k : ℕ) (out : List ℕ)
    → All IsByte s
    → (hex2bin_loop n s k out).0 ≡ all_hex n s
unfolding hex2bin_loop all_hex
loop_ok zero s k out h = refl
loop_ok (suc n) s k out h = ground (
  arith,
  get_or-IsByte s 0 h,
  get_or-IsByte s 1 h,
  hex_byte_error (get_or s 0 0) (get_or s 1 0),
  hf_hex2bin_error (get_or s 0 0),
  hf_hex2bin_error (get_or s 1 0),
  loop_ok n (drop 2 s) (k + 1) (store out k (hex_byte (get_or s 0 0) (get_or s 1 0) false).0)
      (drop_two-IsByte s h),
)

length-store : (out : List ℕ) (k v : ℕ) → k < length out → length (store out k v) ≡ length out
unfolding store
length-store [] k v lt = absurd (omega arith)
length-store (x ∷ out) zero v lt = refl
length-store (x ∷ out) (suc k) v lt = ap suc (length-store out k v (omega arith))

loop-length :
    (n : ℕ) (s : List ℕ) (k : ℕ) (out : List ℕ)
    → k + n ≤ length out
    → length (hex2bin_loop n s k out).1 ≡ length out
unfolding hex2bin_loop
loop-length zero s k out fits = refl
loop-length (suc n) s k out fits =
    let byte = (hex_byte (get_or s 0 0) (get_or s 1 0) false).0 in
    let size = length-store out k byte (omega arith) in
    ground
      (arith, size, loop-length n (drop 2 s) (k + 1) (store out k byte) (omega (arith, size, fits)))

-- Over an even length hex2bin answers true exactly when all the digits that it reads are in the
-- alphabet (upper or lower case), and every write is inside a buffer that has room for the bytes.
pub hex2bin_lem :
    (n : ℕ) (s out : List ℕ)
    → All IsByte s
    → ((hex2bin s (2 * n) out).0 ≡ all_hex n s)
      × (n ≤ length out → length (hex2bin s (2 * n) out).1 ≡ length out)
unfolding hex2bin
hex2bin_lem n s out h =
    let rounds : (2 * n + 1) / 2 ≡ n = omega arith in
    rw rounds (loop_ok n s 0 out h, λ fits. loop-length n s 0 out (omega arith))

-- The bytes that n pairs of digits stand for.
unfoldable pub decode : ℕ → List ℕ → List ℕ
decode zero s = []
decode (suc n) s = (hex_byte (get_or s 0 0) (get_or s 1 0) false).0 ∷ decode n (drop 2 s)

pub length-decode : (n : ℕ) (s : List ℕ) → length (decode n s) ≡ n
unfolding decode
length-decode zero s = refl
length-decode (suc n) s = ap suc (length-decode n (drop 2 s))

loop-decode :
    (n : ℕ) (s : List ℕ) (k : ℕ) (out : List ℕ)
    → All IsByte s
    → all_hex n s ≡ true
    → hex2bin_loop n s k out ≡ (true, write_from k (decode n s) out)
unfolding hex2bin_loop all_hex decode write_from
loop-decode zero s k out h e = refl
loop-decode (suc n) s k out h e =
    let byte = (hex_byte (get_or s 0 0) (get_or s 1 0) false).0 in
    ground (
      arith,
      get_or-IsByte s 0 h,
      get_or-IsByte s 1 h,
      hex_byte_error (get_or s 0 0) (get_or s 1 0),
      hf_hex2bin_error (get_or s 0 0),
      hf_hex2bin_error (get_or s 1 0),
      loop-decode n (drop 2 s) (suc k) (store out k byte) (drop_two-IsByte s h),
    )

-- Where all digits are in the alphabet, their bytes are written at the front of the buffer.
pub hex2bin-decode :
    (n : ℕ) (s out : List ℕ)
    → All IsByte s
    → all_hex n s ≡ true
    → n ≤ length out
    → hex2bin s (2 * n) out ≡ (true, decode n s ++ drop n out)
unfolding hex2bin
hex2bin-decode n s out h e fits =
    let rounds : (2 * n + 1) / 2 ≡ n = omega arith in
    let size = length-decode n s in
    rw (rounds, loop-decode n s 0 out h e)
      (ap (λ b. (true, b))
        (subst (λ m. write_from 0 (decode n s) out ≡ decode n s ++ drop m out) size
          (write_from_zero (decode n s) out (rw size fits))))
