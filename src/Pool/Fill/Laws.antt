-- ===== src/Pool/Fill/Laws.antt =====
-- Which jobs process_pool_job accepts, as one test on the members of the message.
use mathlib.Core.List.{append-nil}
use epic_miner.Common.{
  ℕ, zero, suc, ◌*◌, ◌≡◌, refl, ◌∙◌, inl, inr, Bool, true, false, ◌&&◌, ◌||◌, not, List, [], ◌∷◌,
  ◌++◌, arith, ltb, leb, ◌==◌, ==_iff, All, length, Option, none, some, Bool-cases, Option-cases,
  drop, codes, strcmp_eq,
}
use epic_miner.Json.{Value, as_string}
use epic_miner.Misc.Hex.{hex2bin}
use epic_miner.Misc.Hex.Laws.{IsByte, all_hex, hex2bin_lem, decode, hex2bin-decode}
use epic_miner.Vector32.{load_le}
use epic_miner.Job.{PoolJob, reset, jobid_size, blob_size}
use epic_miner.Pool.Fill.{
  JobParams, Filled, filled, rejected, and_then, set_pow, set_id, work_len, set_blob, store_le,
  set_target, set_seed_text, set_seed, start, fill_job,
}

unfoldable pub is_filled : Filled → Bool
is_filled (filled job) = true
is_filled (rejected err job) = false

-- The eight digits of the target: the text, then zeros.
abbrev pub padded : List ℕ → List ℕ
padded target = target ++ drop (length target) (codes "00000000")

unfoldable pub known_pow : List ℕ → Bool
known_pow pow_algo =
    strcmp_eq pow_algo (codes "randomx")
    || (strcmp_eq pow_algo (codes "progpow") || strcmp_eq pow_algo (codes "cuckoo"))

-- The number that the first eight digits of a text spell, least significant byte first.
unfoldable pub target_value : List ℕ → ℕ
target_value s = load_le 4 0 (decode 4 s)

unfoldable pub seed_ok : Option (List ℕ) → Bool
seed_ok none = false
seed_ok (some s) = (length s == 64) && all_hex 32 s

-- The whole test.
unfoldable pub acceptable : JobParams → Bool
unfolding known_pow target_value seed_ok
acceptable p =
    known_pow p.pow_algo
    && (ltb (length p.jobid) jobid_size
        && ((leb (work_len p.blob) blob_size && all_hex (work_len p.blob) p.blob)
            && ((leb (length p.target) 8
                  && (all_hex 4 (padded p.target) && not (target_value (padded p.target) == 0)))
                && seed_ok (as_string p.seed_hash))))

pub record AreBytes (p : JobParams) : Type 0 where
  pub blob_bytes : All IsByte p.blob
  pub target_bytes : All IsByte p.target
  pub seed_bytes : (s : List ℕ) → as_string p.seed_hash ≡ some s → All IsByte s

stage :
    (m : Filled) (f : PoolJob → Filled) (d c : Bool)
    → is_filled m ≡ d
    → ((job : PoolJob) → is_filled (f job) ≡ c)
    → is_filled (and_then m f) ≡ (d && c)
unfolding is_filled
stage (filled job) f d c e h = rw (← e) (h job)
stage (rejected err job) f d c e h = rw (← e)

last_stage :
    (m : Filled) (g : PoolJob → PoolJob)
    → is_filled (and_then m (λ job. filled (g job))) ≡ is_filled m
unfolding is_filled
last_stage (filled job) g = refl
last_stage (rejected err job) g = refl

set_pow_ok : (a : List ℕ) (job : PoolJob) → is_filled (set_pow a job) ≡ known_pow a
unfolding is_filled set_pow known_pow
set_pow_ok a job = ground arith

set_id_ok : (a : List ℕ) (job : PoolJob) → is_filled (set_id a job) ≡ ltb (length a) jobid_size
unfolding is_filled set_id
set_id_ok a job = ground arith

set_blob_ok :
    (a : List ℕ) (job : PoolJob)
    → All IsByte a
    → is_filled (set_blob a job) ≡ (leb (work_len a) blob_size && all_hex (work_len a) a)
unfolding is_filled set_blob
set_blob_ok a job h =
    let twice : work_len a * 2 ≡ 2 * work_len a = omega arith in
    let done = (hex2bin_lem (work_len a) a job.blob h).0 in rw twice (ground (arith, done))

pub All-append {ℓ κ} :
    {A : Type ℓ} (P : A → Type κ) (xs ys : List A) → All P xs → All P ys → All P (xs ++ ys)
All-append P [] ys hx hy = hy
All-append P (x ∷ xs) ys hx hy = (hx.0, All-append P xs ys hx.1 hy)

pub All-drop {ℓ κ} :
    {A : Type ℓ} (P : A → Type κ) (n : ℕ) (xs : List A) → All P xs → All P (drop n xs)
All-drop P zero xs h = h
All-drop P (suc n) [] h = h
All-drop P (suc n) (x ∷ xs) h = All-drop P n xs h.1

pub padded-IsByte : (a : List ℕ) → All IsByte a → All IsByte (padded a)
padded-IsByte a h =
    All-append IsByte a (drop (length a) (codes "00000000")) h
      (All-drop IsByte (length a) (codes "00000000") (omega arith))

-- The four bytes of the old target are all overwritten.
pub read_target :
    (s : List ℕ) (old : ℕ)
    → All IsByte s
    → all_hex 4 s ≡ true
    → load_le 4 0 (hex2bin s 8 (store_le 4 old)).1 ≡ target_value s
unfolding target_value store_le
read_target s old h e =
    rw (hex2bin-decode 4 s (store_le 4 old) h e (omega arith)) (rw append-nil refl)

set_target_ok :
    (a : List ℕ) (job : PoolJob)
    → All IsByte a
    → is_filled (set_target a job)
      ≡ (leb (length a) 8 && (all_hex 4 (padded a) && not (target_value (padded a) == 0)))
unfolding is_filled set_target
set_target_ok a job h =
    let bytes = padded-IsByte a h in
    let done = (hex2bin_lem 4 (padded a) (store_le 4 job.target) bytes).0 in
    ground (arith, done, read_target (padded a) job.target bytes)

set_seed_text_ok :
    (s : List ℕ) (job : PoolJob)
    → All IsByte s
    → is_filled (set_seed_text s job) ≡ ((length s == 64) && all_hex 32 s)
unfolding is_filled set_seed_text
set_seed_text_ok s job h = elim (Bool-cases (length s == 64)) [
  | inl same ↦
      let size : length s ≡ 64 = (==_iff (length s) 64).0 same in
      let done = (hex2bin_lem 32 s job.randomx_seed.bytes h).0 in
      rw (same, size) (ground (arith, done))
  | inr other ↦ rw other refl
]

set_seed_ok :
    (v : Value) (job : PoolJob)
    → ((s : List ℕ) → as_string v ≡ some s → All IsByte s)
    → is_filled (set_seed v job) ≡ seed_ok (as_string v)
unfolding set_seed seed_ok is_filled
set_seed_ok v job h = elim (Option-cases (as_string v)) [
  | inl e ↦ rw (e, set_seed) refl
  | inr (s, e) ↦ rw (e, set_seed) (set_seed_text_ok s job (h s e))
]

-- A job whose texts are bytes is accepted exactly when its algorithm is known, its id fits 63 characters, its blob is at
-- most 512 bytes of hexadecimal, its target is at most eight digits that do not spell zero, and its
-- seed is a text of 64 digits. The job that was there before plays no part.
pub fill_job_accepts :
    (p : JobParams) (job : PoolJob) → AreBytes p → is_filled (fill_job p job) ≡ acceptable p
unfolding fill_job acceptable is_filled
fill_job_accepts p job h = stage _ _ _ _ (set_pow_ok p.pow_algo (reset job)) λ job1.
    stage _ _ _ _ (set_id_ok p.jobid job1) λ job2.
      stage _ _ _ _ (set_blob_ok p.blob job2 h.blob_bytes) λ job3.
        stage _ _ _ _ (set_target_ok p.target job3 h.target_bytes) λ job4.
          last_stage (set_seed p.seed_hash job4) (start p.height (work_len p.blob))
          ∙ set_seed_ok p.seed_hash job4 h.seed_bytes
