-- ===== src/Vector32/Laws.antt =====
-- Equality, words and ids of v32 in terms of its bytes.
use epic_miner.Common.{
  ℕ, zero, suc, ◌+◌, ◌-◌, ◌*◌, ◌/◌, ◌%◌, ◌^◌, ◌≤◌, ◌<◌, ◌≡◌, refl, ap, ◌↔◌, ◌≢◌, true, not, List,
  [], ◌∷◌, arith, ◌==◌, ==_iff, All, length, length-drop, get_or, take, drop, take-append-drop,
  bit_and, bit_xor, bit_and-low_mask, bit_xor-eq-zero, bit_xor_self, bit_and_self,
}
use epic_miner.Vector32.{
  V32, load_le, bswap, get_work32, get_work64, get_id, xor_bytes, testz, v32_eq, v32_ne,
}

-- The array holds 32 bytes.
pub record IsValid (v : V32) : Type 0 where
  pub sized : length v.bytes ≡ 32
  pub in_range : All (λ x. x < 256) v.bytes

pub get_or-lt : (bs : List ℕ) (i : ℕ) → All (λ x. x < 256) bs → get_or bs i 0 < 256
get_or-lt [] i h = omega arith
get_or-lt (x ∷ bs) zero h = h.0
get_or-lt (x ∷ bs) (suc i) h = get_or-lt bs i h.1

All-drop {ℓ κ} : {A : Type ℓ} (P : A → Type κ) (n : ℕ) (xs : List A) → All P xs → All P (drop n xs)
All-drop P zero xs h = h
All-drop P (suc n) [] h = h
All-drop P (suc n) (x ∷ xs) h = All-drop P n xs h.1

-- The id keeps the low 63 bits of the first eight bytes, so it is never the `invalid_id` of a
-- dataset, and two vectors share an id exactly when these 63 bits agree.
pub get_id_lem :
    (v w : V32)
    → (get_id v < 2 ^ 63)
      × (get_id v ≢ 2 ^ 64 - 1)
      × ((get_id v ≡ get_id w) ↔ (load_le 8 0 v.bytes % 2 ^ 63 ≡ load_le 8 0 w.bytes % 2 ^ 63))
unfolding get_id
get_id_lem v w =
    let ev = bit_and-low_mask 63 (load_le 8 0 v.bytes) in
    let ew = bit_and-low_mask 63 (load_le 8 0 w.bytes) in
    (rw ev (omega arith), rw ev (omega arith), rw (ev, ew) ((λ h. h), (λ h. h)))

-- One byte of the comparison.
byte_same : (x y : ℕ) → (bit_and (bit_xor x y) (bit_xor x y) == 0) ≡ (x == y)
byte_same x y =
    let masked = bit_and_self (suc (bit_xor x y)) (bit_xor x y) (omega arith) in
    rw masked (ground (arith, bit_xor-eq-zero (suc x) x y, λ (e : x ≡ y). same e))
  where
    same : x ≡ y → bit_xor x y ≡ 0
    same e = rw e (bit_xor_self (suc y) y (omega arith))

testz-xor :
    (n : ℕ) (a b : List ℕ)
    → n ≤ length a
    → n ≤ length b
    → (testz (xor_bytes n a b) ≡ true) ↔ (take n a ≡ take n b)
unfolding testz xor_bytes
testz-xor zero a b p q = ((λ _. refl), (λ _. refl))
testz-xor (suc n) [] b p q = absurd (omega arith)
testz-xor (suc n) (x ∷ a) [] p q = absurd (omega arith)
testz-xor (suc n) (x ∷ a) (y ∷ b) p q =
    rw (byte_same x y) (ground (arith, testz-xor n a b (omega arith) (omega arith), ==_iff x y))

take_all : (n : ℕ) (xs : List ℕ) → length xs ≡ n → take n xs ≡ xs
take_all zero [] h = refl
take_all zero (x ∷ xs) h = absurd (omega arith)
take_all (suc n) [] h = refl
take_all (suc n) (x ∷ xs) h = ap (◌∷◌ x) (take_all n xs (omega arith))

-- Of two vectors of 32 bytes, operator== holds exactly of the same bytes, and operator!= of any others.
pub v32_eq_iff :
    (v w : V32)
    → IsValid v
    → IsValid w
    → ((v32_eq v w ≡ true) ↔ (v.bytes ≡ w.bytes)) × (v32_ne v w ≡ not (v32_eq v w))
unfolding v32_eq v32_ne
v32_eq_iff v w hv hw =
    let a = v.bytes in
    let b = w.bytes in
    let sa : length (drop 16 a) ≡ 16 = omega (arith, length-drop 16 a) in
    let sb : length (drop 16 b) ≡ 16 = omega (arith, length-drop 16 b) in
    ground (
      arith,
      testz-xor 16 a b (omega arith) (omega arith),
      testz-xor 16 (drop 16 a) (drop 16 b) (omega arith) (omega arith),
      take_all 16 (drop 16 a) sa,
      take_all 16 (drop 16 b) sb,
      take-append-drop 16 a,
      take-append-drop 16 b,
    )

-- The big-endian reading of `n` bytes from address `i`.
pub load_be : ℕ → ℕ → List ℕ → ℕ
load_be zero i bs = 0
load_be (suc n) i bs = get_or bs i 0 * 256 ^ n + load_be n (i + 1) bs

bswap-load_le :
    (n i : ℕ) (bs : List ℕ) → All (λ x. x < 256) bs → bswap n (load_le n i bs) ≡ load_be n i bs
unfolding bswap load_le load_be
bswap-load_le zero i bs h = refl
bswap-load_le (suc n) i bs h =
    let b = get_or-lt bs i h in
    let low : (get_or bs i 0 + 256 * load_le n (i + 1) bs) % 256 ≡ get_or bs i 0 = omega arith in
    let high : (get_or bs i 0 + 256 * load_le n (i + 1) bs) / 256 ≡ load_le n (i + 1) bs =
      omega arith in
    rw (low, high, bswap-load_le n (i + 1) bs h)

-- The work words of a vector of 32 bytes are the big-endian numbers that its first four and its
-- first eight bytes spell, and the first is below 2^32.
pub get_work_lem :
    (v : V32)
    → IsValid v
    → (get_work32 v ≡ load_be 4 0 v.bytes)
      × (get_work32 v < 2 ^ 32)
      × (get_work64 v ≡ load_be 8 0 v.bytes)
unfolding get_work32 get_work64
get_work_lem v h =
    let same = bswap-load_le 4 0 v.bytes h.in_range in
    (same, rw same (four_bytes v.bytes h.in_range), bswap-load_le 8 0 v.bytes h.in_range)
  where
    four_bytes : (bs : List ℕ) → All (λ x. x < 256) bs → load_be 4 0 bs < 2 ^ 32
    four_bytes bs g =
        unfold load_be in
        omega (arith, get_or-lt bs 0 g, get_or-lt bs 1 g, get_or-lt bs 2 g, get_or-lt bs 3 g)
