-- ===== src/Misc/Hex.antt =====
-- misc.hpp: hf_hex2bin, hex2bin, hf_bin2hex and bin2hex. A `char` or `unsigned char` is its byte
-- value; the `bool& err` and the buffer written through are returned.
pub mod Digits
pub mod Laws
mod Tests
use epic_miner.Common.{
  ℕ, zero, suc, ◌+◌, ◌-◌, ◌*◌, ◌/◌, ◌%◌, ◌^◌, bit_and, bit_or, Bool, true, false, ◌&&◌, List, [],
  ◌∷◌, leb, if◌then◌else◌, get_or, drop,
}

-- The digit's value, and the error flag after the call.
unfoldable pub hf_hex2bin : ℕ → Bool → ℕ × Bool
hf_hex2bin c err =
    if leb b'0' c && leb c b'9'
    then (c - b'0', err)
    else if leb b'a' c && leb c b'f'
    then (c - b'a' + 0xA, err)
    else if leb b'A' c && leb c b'F'
    then (c - b'A' + 0xA, err)
    else (0, true)

-- The body of the loop: two digits into one byte, and the error flag.
unfoldable pub hex_byte : ℕ → ℕ → Bool → ℕ × Bool
unfolding hf_hex2bin
hex_byte hi lo error =
    let (h, error1) = hf_hex2bin hi error in
    let (l, error2) = hf_hex2bin lo error1 in (bit_or (h * 2 ^ 4) l % 2 ^ 8, error2)

-- out[k] = v. A write past the end of the buffer makes the list longer, so that a buffer which keeps
-- its size was written inside only.
pub store : List ℕ → ℕ → ℕ → List ℕ
store [] zero v = v ∷ []
store [] (suc k) v = 0 ∷ store [] k v
store (x ∷ out) zero v = v ∷ out
store (x ∷ out) (suc k) v = x ∷ store out k v

-- The loop at i = 2 * k with `rounds` rounds left; `in` is what stands from in[i] on, with the
-- terminating NUL behind it.
pub hex2bin_loop : ℕ → List ℕ → ℕ → List ℕ → Bool × List ℕ
unfolding store
hex2bin_loop zero input k out = (true, out)
hex2bin_loop (suc rounds) input k out =
    let (byte, error) = hex_byte (get_or input 0 0) (get_or input 1 0) false in
    let out' = store out k byte in
    let rest = hex2bin_loop rounds (drop 2 input) (k + 1) out' in
    if error then (false, out') else rest

pub hex2bin : List ℕ → ℕ → List ℕ → Bool × List ℕ
unfolding hex2bin_loop hex_byte
hex2bin input len out = hex2bin_loop ((len + 1) / 2) input 0 out

unfoldable pub hf_bin2hex : ℕ → ℕ
hf_bin2hex c = if leb c 0x9 then b'0' + c else (b'a' - 0xA) + c

-- The digits of in[i..len), then the terminating NUL.
unfoldable pub bin2hex : List ℕ → ℕ → List ℕ
unfolding hf_bin2hex
bin2hex input zero = 0 ∷ []
bin2hex input (suc len) =
    hf_bin2hex (bit_and (get_or input 0 0) 0xF0 / 2 ^ 4)
    ∷ hf_bin2hex (bit_and (get_or input 0 0) 0x0F)
    ∷ bin2hex (drop 1 input) len
