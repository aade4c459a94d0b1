-- ===== src/Executor/Errors/Laws.antt =====
-- What the error log knows after an error is logged, and after several.
use epic_miner.Common.{
  ℕ, ◌+◌, ◌≡◌, refl, sym, ap, subst, ◌≢◌, inl, inr, true, false, List, [], ◌∷◌, arith, Option, none,
  some, if◌then◌else◌, bytes_eq, bytes_eq_iff, Bool-cases,
}
use epic_miner.Executor.Errors.{ErrorInfo, ErrorLog, find, log_error}

-- The log after the errors of a list, oldest first, each with its time.
unfoldable pub log_all : List (List ℕ × ℕ) → ErrorLog → ErrorLog
unfolding log_error
log_all [] log = log
log_all ((msg, now) ∷ later) log = log_all later (log_error msg now log)

-- How often a message is in such a list.
unfoldable pub occurrences : List ℕ → List (List ℕ × ℕ) → ℕ
occurrences msg [] = 0
occurrences msg ((m, now) ∷ later) = (if bytes_eq m msg then 1 else 0) + occurrences msg later

abbrev info_count : Option ErrorInfo → ℕ
info_count none = 0
info_count (some info) = info.count

-- The count of a message, 0 where it is not in the log.
abbrev pub count_of : List ℕ → ErrorLog → ℕ
count_of msg log = info_count (find msg log)

bytes_eq_self : (a : List ℕ) → bytes_eq a a ≡ true
bytes_eq_self a = (bytes_eq_iff a a).1 refl

bytes_eq-other : (a b : List ℕ) → b ≢ a → bytes_eq a b ≡ false
bytes_eq-other a b h = elim (Bool-cases (bytes_eq a b)) [
  | inl same ↦ absurd (h (sym ((bytes_eq_iff a b).0 same)))
  | inr other ↦ other
]

-- The logged message's entry has the time given, and a count one higher than before (1 where it was
-- not there); every other message's entry is as it was.
pub log_error_lem :
    (msg other : List ℕ) (now : ℕ) (log : ErrorLog)
    → (find msg (log_error msg now log)
        ≡ some (record { last_seen = now; count = count_of msg log + 1 }))
      × (other ≢ msg → find other (log_error msg now log) ≡ find other log)
unfolding find log_error
log_error_lem msg other now [] =
    (rw (bytes_eq_self msg) refl, λ h. rw (bytes_eq-other msg other h) refl)
log_error_lem msg other now ((key, info) ∷ log) =
    let (mine, others) = log_error_lem msg other now log in
    elim (Bool-cases (bytes_eq key msg)) [
      | inl same ↦
          let is : key ≡ msg = (bytes_eq_iff key msg).0 same in
          (
            rw (count_of, same) (rw (same) refl),
            λ h. rw (same) (rw (is, bytes_eq-other msg other h) refl),
          )
      | inr not_it ↦
          (rw (count_of, not_it) (rw (not_it) mine), λ h. rw (not_it) (rw (others h) refl))
    ]

-- After the errors of a list, a message's count is its count before plus the number of times that
-- it is in the list.
pub count_of-log_all :
    (msg : List ℕ) (errors : List (List ℕ × ℕ)) (log : ErrorLog)
    → count_of msg (log_all errors log) ≡ count_of msg log + occurrences msg errors
unfolding log_all occurrences
count_of-log_all msg [] log = omega arith
count_of-log_all msg ((m, now) ∷ later) log =
    let ih = count_of-log_all msg later (log_error m now log) in
    let (mine, others) = log_error_lem m msg now log in
    elim (Bool-cases (bytes_eq m msg)) [
      | inl same ↦
          let is : m ≡ msg = (bytes_eq_iff m msg).0 same in
          let counted : count_of msg (log_error m now log) ≡ count_of msg log + 1 =
            subst (λ x. count_of x (log_error m now log) ≡ count_of x log + 1) is
              (ap info_count mine) in
          rw (same) (omega (arith, ih, counted))
      | inr not_it ↦
          let kept : count_of msg (log_error m now log) ≡ count_of msg log =
            ap info_count (others (λ e. absurd (cc (bytes_eq_self m, e, not_it)))) in
          rw (not_it) (omega (arith, ih, kept))
    ]
