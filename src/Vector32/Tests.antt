-- ===== src/Vector32/Tests.antt =====
-- The vector of the bytes 1 to 32, and the theorems about v32 at it.
use epic_miner.Common.{◌≡◌, refl, false, [], ◌∷◌, arith}
use epic_miner.Vector32.{
  V32, load_le, bswap, get_work32, v32_eq, of_bytes, hash, copy, assign, assign_bytes, set_all_ones,
  set_all_zero,
}
use epic_miner.Vector32.Laws.{IsValid}

abbrev counting : V32
counting = record {
  bytes =
      1 ∷ 2 ∷ 3 ∷ 4 ∷ 5 ∷ 6 ∷ 7 ∷ 8 ∷ 9 ∷ 10 ∷ 11 ∷ 12 ∷ 13 ∷ 14 ∷ 15 ∷ 16 ∷ 17 ∷ 18 ∷ 19 ∷ 20 ∷ 21
      ∷ 22 ∷ 23 ∷ 24 ∷ 25 ∷ 26 ∷ 27 ∷ 28 ∷ 29 ∷ 30 ∷ 31 ∷ 32 ∷ [];
}

counting-IsValid : IsValid counting
counting-IsValid = record { sized = refl; in_range = omega arith }

work_runs : get_work32 counting ≡ 0x01020304
unfolding get_work32 bswap load_le
work_runs = refl

of_bytes_runs : of_bytes counting.bytes ≡ counting
unfolding of_bytes
of_bytes_runs = refl

hash_runs : hash (set_all_ones counting) ≡ 0
unfolding hash load_le set_all_ones
hash_runs = refl

ones_differ : v32_eq (set_all_ones counting) (set_all_zero counting) ≡ false
unfolding v32_eq set_all_ones set_all_zero
ones_differ = refl

copies :
    (copy counting ≡ counting)
    × (assign (set_all_zero counting) counting ≡ counting)
    × (assign_bytes (set_all_zero counting) counting.bytes ≡ counting)
unfolding copy assign assign_bytes set_all_zero
copies = (refl, refl, refl)
