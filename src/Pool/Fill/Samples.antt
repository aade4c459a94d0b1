-- ===== src/Pool/Fill/Samples.antt =====
-- A job of the server, for the tests.
use epic_miner.Common.{
  ℕ, ◌≡◌, refl, subst, true, List, arith, All, Option, some, replicate, codes, c_str, strcmp_eq,
  bytes_eq,
}
use epic_miner.Json.{str, as_string}
use epic_miner.Misc.Hex.Laws.{IsByte, decode, all_hex}
use epic_miner.Misc.Hex.{hf_hex2bin, hex_byte}
use epic_miner.Misc.Hex.Digits.{is_hex_digit, mem_bytes}
use epic_miner.Vector32.{load_le}
use epic_miner.Job.{PowType, PoolJob}
use epic_miner.Pool.Fill.{JobParams, work_len}
use epic_miner.Pool.Fill.Laws.{acceptable, known_pow, seed_ok, AreBytes, target_value}
use epic_miner.Pool.Fill.Fields.{IsSized}

abbrev pub seed_text : List ℕ
seed_text = codes "00112233445566778899aabbccddeeff00112233445566778899aabbccddeeff"

some_inj : (x y : List ℕ) → ◌≡◌ {A = Option (List ℕ)} (some x) (some y) → x ≡ y
some_inj x y e = cc (e)

abbrev pub params : JobParams
params = record {
  jobid = codes "job1";
  blob = codes "0a0b0c0d0e0f";
  target = codes "ff000000";
  pow_algo = codes "progpow";
  seed_hash = str seed_text;
  height = 700_000;
}

pub params-AreBytes : AreBytes params
unfolding as_string
params-AreBytes = record {
  blob_bytes = omega arith;
  target_bytes = omega arith;
  seed_bytes = λ s e.
      (let same : seed_text ≡ s = some_inj seed_text s e in subst (All IsByte) same (omega arith));
}

abbrev pub empty_job : PoolJob
empty_job = record {
  id = replicate 64 0;
  blob = replicate 512 0;
  randomx_seed = record { bytes = replicate 32 0 };
  height = 0;
  blob_len = 0;
  nonce_pos = 0;
  target = 0;
  nonce = 0;
  pow = PowType.idle;
}

pub empty_job-IsSized : IsSized empty_job
empty_job-IsSized = record { id_size = refl; blob_sized = refl; seed_size = refl }

pub accepted : acceptable params ≡ true
unfolding acceptable known_pow target_value seed_ok all_hex decode strcmp_eq c_str bytes_eq work_len
    as_string load_le is_hex_digit mem_bytes hf_hex2bin hex_byte
accepted = refl
