-- ===== src/Executor/State/Replies.antt =====
-- The executor's counters and error log over a sequence of replies to shares.
use epic_miner.Common.{
  ℕ, zero, suc, ◌+◌, ◌%◌, ◌^◌, ◌<◌, ◌≡◌, refl, inl, inr, List, [], ◌∷◌, arith, Option, none, some,
  length, get_elem?, All, Option-cases,
}
use epic_miner.Miner.Record.{Miner}
use epic_miner.Executor.Errors.{log_error, SessionCounters}
use epic_miner.Executor.Errors.Laws.{log_all, count_of, occurrences, count_of-log_all}
use epic_miner.Executor.State.{Executor, difficulty, accept_share, reject_share, on_result_reply}

-- A reply as on_result_reply gets it, and the time at which it is handled.
pub record ShareReply : Type 0 where
  pub target : ℕ
  pub error : Option (List ℕ)
  pub miner_id : ℕ
  pub now : ℕ

pub reply_all : List ShareReply → Executor → Option Executor
reply_all [] ex = some ex
reply_all (r ∷ rs) ex = elim (on_result_reply r.target r.error r.miner_id r.now ex) [
  | none ↦ none
  | some ex' ↦ reply_all rs ex'
]

abbrev rejections_from : Option (List ℕ) → ℕ → List (List ℕ × ℕ) → List (List ℕ × ℕ)
rejections_from none now later = later
rejections_from (some msg) now later = (msg, now) ∷ later

-- The messages of the rejected shares, with their times.
pub rejections : List ShareReply → List (List ℕ × ℕ)
rejections [] = []
rejections (r ∷ rs) = rejections_from r.error r.now (rejections rs)

abbrev credit_from : Option (List ℕ) → ℕ → ℕ → ℕ
credit_from none diff later = diff + later
credit_from (some msg) diff later = later

-- The sum of the difficulties of the accepted shares.
pub credit : List ShareReply → ℕ
credit [] = 0
credit (r ∷ rs) = credit_from r.error (difficulty r.target) (credit rs)

abbrev accepted_from : Option (List ℕ) → ℕ → ℕ
accepted_from none later = suc later
accepted_from (some msg) later = later

-- How many of the shares are accepted.
pub accepted : List ShareReply → ℕ
accepted [] = 0
accepted (r ∷ rs) = accepted_from r.error (accepted rs)

abbrev pub InRange : SessionCounters → Type 0
InRange c =
    (c.accepted_shares_cnt < 2 ^ 64) × (c.rejected_shares_cnt < 2 ^ 64) × (c.total_diff < 2 ^ 64)

get_elem?-below :
    (ms : List Miner) (i : ℕ) → i < length ms → (m : Miner) × (get_elem? ms i ≡ some m)
get_elem?-below [] i h = absurd (omega arith)
get_elem?-below (m ∷ ms) zero h = (m, refl)
get_elem?-below (m ∷ ms) (suc i) h = get_elem?-below ms i (omega arith)

-- From counters below 2^64, with every reply naming a miner that is there: the replies are all
-- handled; the accepted shares, the rejected ones and the difficulties of the accepted ones are
-- added to the three counters, modulo 2^64; and each message's count in the error log goes up by the
-- number of shares rejected with it.
pub reply_all_lem :
    (rs : List ShareReply) (ex : Executor)
    → All (λ r. r.miner_id < length ex.miners) rs
    → InRange ex.pool_ctr
    → (ex' : Executor) × (reply_all rs ex ≡ some ex')
      × (ex'.pool_ctr.accepted_shares_cnt
          ≡ (ex.pool_ctr.accepted_shares_cnt + accepted rs) % 2 ^ 64)
      × (ex'.pool_ctr.rejected_shares_cnt
          ≡ (ex.pool_ctr.rejected_shares_cnt + length (rejections rs)) % 2 ^ 64)
      × (ex'.pool_ctr.total_diff ≡ (ex.pool_ctr.total_diff + credit rs) % 2 ^ 64)
      × ((msg : List ℕ)
          → count_of msg ex'.error_log
            ≡ count_of msg ex.error_log + occurrences msg (rejections rs))
unfolding reply_all accepted rejections credit occurrences on_result_reply accept_share reject_share
    log_all
reply_all_lem [] ex all (a, b, c) =
    (ex, refl, omega (arith, a), omega (arith, b), omega (arith, c), λ msg. omega arith)
reply_all_lem (r ∷ rs) ex (here, all) range =
    let (m, at) = get_elem?-below ex.miners r.miner_id here in
    let (a0, b0, c0) = range in
    elim (Option-cases r.error) [
      | inl ok ↦
          let ex1 : Executor = record ex { pool_ctr = accept_share r.target ex.pool_ctr } in
          let first : on_result_reply r.target r.error r.miner_id r.now ex ≡ some ex1 =
            rw (on_result_reply, at, ok) refl in
          let (ex', done, a, b, c, e) = reply_all_lem rs ex1 all (omega arith, b0, omega arith) in
          (
            ex',
            rw (reply_all, first) done,
            rw (ok) (omega (arith, a)),
            rw (ok) b,
            rw (ok) (omega (arith, c)),
            λ msg. rw (ok) (e msg),
          )
      | inr (err, ko) ↦
          let ex1 : Executor = record ex {
            pool_ctr = reject_share ex.pool_ctr;
            error_log = log_error err r.now ex.error_log;
          } in
          let first : on_result_reply r.target r.error r.miner_id r.now ex ≡ some ex1 =
            rw (on_result_reply, at, ko) refl in
          let (ex', done, a, b, c, e) = reply_all_lem rs ex1 all (a0, omega arith, c0) in
          (
            ex',
            rw (reply_all, first) done,
            rw (ko) a,
            rw (ko) (omega (arith, b)),
            rw (ko) c,
            λ msg.
                let once = count_of-log_all msg ((err, r.now) ∷ []) ex.error_log in
                rw (ko) (omega (arith, e msg, once)),
          )
    ]
