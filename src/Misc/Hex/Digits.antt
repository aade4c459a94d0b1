-- ===== src/Misc/Hex/Digits.antt =====
-- What hf_hex2bin and hf_bin2hex do with one digit and with one byte, checked over all bytes.
use epic_miner.Common.{
  ℕ, ◌/◌, ◌^◌, ◌<◌, bit_and, ◌≡◌, refl, Bool, true, false, ◌&&◌, ◌||◌, List, [], ◌∷◌, arith, ◌==◌,
  if◌then◌else◌, all_below, all_below_sound, codes,
}
use epic_miner.Misc.Hex.{hf_hex2bin, hex_byte, hf_bin2hex}

-- Membership in the alphabet of the format, written out.
unfoldable pub mem_bytes : ℕ → List ℕ → Bool
mem_bytes c [] = false
mem_bytes c (x ∷ xs) = (c == x) || mem_bytes c xs

unfoldable pub is_hex_digit : ℕ → Bool
unfolding mem_bytes
is_hex_digit c = mem_bytes c (codes "0123456789abcdefABCDEF")

bool_eq : Bool → Bool → Bool
bool_eq true b = b
bool_eq false true = false
bool_eq false false = true

bool_eq→eq : (a b : Bool) → bool_eq a b ≡ true → a ≡ b
unfolding bool_eq
bool_eq→eq a b h = ground arith

digit_table :
    all_below 256 (λ c. bool_eq ((hf_hex2bin c false).1) (if is_hex_digit c then false else true))
    ≡ true
unfolding all_below hf_hex2bin is_hex_digit bool_eq
digit_table = refl

-- A byte is refused as a digit exactly when it is not in the alphabet.
pub hf_hex2bin_error :
    (c : ℕ) → c < 256 → (hf_hex2bin c false).1 ≡ (if is_hex_digit c then false else true)
hf_hex2bin_error c h = bool_eq→eq _ _ (all_below_sound 256 _ digit_table c h)

-- The flag is only ever set.
pub hex_byte_error :
    (hi lo : ℕ) → (hex_byte hi lo false).1 ≡ ((hf_hex2bin hi false).1 || (hf_hex2bin lo false).1)
unfolding hex_byte hf_hex2bin
hex_byte_error hi lo = ground arith

byte_table :
    all_below 256 (λ x.
      let r = hex_byte (hf_bin2hex (bit_and x 0xF0 / 2 ^ 4)) (hf_bin2hex (bit_and x 0x0F)) false in
      (r.0 == x) && bool_eq r.1 false)
    ≡ true
unfolding all_below hex_byte hf_bin2hex bool_eq
byte_table = refl

-- The two digits of a byte read back as that byte.
pub hex_byte-hf_bin2hex :
    (x : ℕ)
    → x < 256
    → hex_byte (hf_bin2hex (bit_and x 0xF0 / 2 ^ 4)) (hf_bin2hex (bit_and x 0x0F)) false
      ≡ (x, false)
hex_byte-hf_bin2hex x h = parts _ x (all_below_sound 256 _ byte_table x h)
  where
    parts : (r : ℕ × Bool) (x : ℕ) → ((r.0 == x) && bool_eq r.1 false) ≡ true → r ≡ (x, false)
    parts r x e = unfold bool_eq in ground arith
