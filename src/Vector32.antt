-- ===== src/Vector32.antt =====
-- vector32.hpp: v32, 32 bytes on a little-endian machine. The SSE instructions work byte by byte: a
-- load or store of 16 bytes is a take or a drop, and _mm_testz_si128(r, r) asks whether all bits of r
-- are 0.
pub mod Laws
mod Tests
use epic_miner.Common.{
  ℕ, zero, suc, ◌+◌, ◌*◌, ◌/◌, ◌%◌, ◌^◌, bit_and, bit_xor, Bool, true, false, ◌&&◌, not, List, [],
  ◌∷◌, ◌++◌, ◌==◌, if◌then◌else◌, get_or, take, drop, replicate,
}

pub record V32 : Type 0 where
  pub bytes : List ℕ

-- A word of `n` bytes read from address `i`, least significant byte first.
unfoldable pub load_le : ℕ → ℕ → List ℕ → ℕ
load_le zero i bs = 0
load_le (suc n) i bs = get_or bs i 0 + 256 * load_le n (i + 1) bs

-- v32(const uint8_t*): two loads of 16 bytes.
pub of_bytes : List ℕ → V32
of_bytes src = record { bytes = take 16 src ++ take 16 (drop 16 src) }

-- v32(const v32&): the same with aligned loads.
pub copy : V32 → V32
copy o = record { bytes = take 16 o.bytes ++ take 16 (drop 16 o.bytes) }

-- operator=, for a vector and for memory.
pub assign : V32 → V32 → V32
assign v o = record v { bytes = take 16 o.bytes ++ take 16 (drop 16 o.bytes) }

pub assign_bytes : V32 → List ℕ → V32
assign_bytes v src = record v { bytes = take 16 src ++ take 16 (drop 16 src) }

-- The bytes of a word of `n` bytes in the other order.
unfoldable pub bswap : ℕ → ℕ → ℕ
bswap zero x = 0
bswap (suc n) x = x % 256 * 256 ^ n + bswap n (x / 256)

unfoldable pub get_work32 : V32 → ℕ
unfolding bswap load_le
get_work32 v = bswap 4 (load_le 4 0 v.bytes)

pub get_work64 : V32 → ℕ
unfolding bswap load_le
get_work64 v = bswap 8 (load_le 8 0 v.bytes)

unfoldable pub get_id : V32 → ℕ
unfolding load_le
get_id v = bit_and (load_le 8 0 v.bytes) 0x7fffffffffffffff

-- _mm_xor_si128 on the first `n` bytes.
pub xor_bytes : ℕ → List ℕ → List ℕ → List ℕ
xor_bytes zero a b = []
xor_bytes (suc n) [] b = []
xor_bytes (suc n) (x ∷ a) [] = []
xor_bytes (suc n) (x ∷ a) (y ∷ b) = bit_xor x y ∷ xor_bytes n a b

-- _mm_testz_si128(r, r) == 1
pub testz : List ℕ → Bool
testz [] = true
testz (x ∷ r) = (bit_and x x == 0) && testz r

pub v32_eq : V32 → V32 → Bool
unfolding xor_bytes testz
v32_eq v o =
    if not (testz (xor_bytes 16 v.bytes o.bytes))
    then false
    else testz (xor_bytes 16 (drop 16 v.bytes) (drop 16 o.bytes))

pub v32_ne : V32 → V32 → Bool
unfolding v32_eq
v32_ne v o = not (v32_eq v o)

pub set_all_ones : V32 → V32
set_all_ones v = record { bytes = replicate 32 255 }

pub set_all_zero : V32 → V32
set_all_zero v = record { bytes = replicate 32 0 }

-- std::hash<v32>
pub hash : V32 → ℕ
unfolding load_le
hash v =
    let b = v.bytes in
    bit_xor (bit_xor (bit_xor (load_le 8 0 b) (load_le 8 8 b)) (load_le 8 16 b)) (load_le 8 24 b)
