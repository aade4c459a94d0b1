-- ===== src/Net/Tls/Write/Laws.antt =====
-- The loop ends where OpenSSL makes progress, and never ends where it keeps failing.
use epic_miner.Common.{
  ℕ, zero, suc, ◌+◌, ◌≤◌, ◌<◌, ◌≡◌, refl, ap, Bool, true, false, Bool-cases, Option-cases, inl, inr,
  List, [], ◌++◌, none, some, ltb, ltb→lt, lt→ltb, length, drop, length-drop, arith,
}
use epic_miner.Common.Int.{ℤ, pos, negsuc, pos_part, neg_part, ◌+ℤ◌, ◌≤ℤ◌, +ℤ_parts}
use epic_miner.Net.Send.{NetAction}
use epic_miner.Net.Tls.{OpenSsl, Tls, TlsReaction}
use epic_miner.Net.Tls.Write.{
  Outcome, done, undefined, running, write_round, after_round, write_rounds, do_socket_write,
}

abbrev pub is_done {ℓ} : {A : Type ℓ} → Outcome A → Bool
is_done (done a) = true
is_done undefined = false
is_done running = false

abbrev pub is_running {ℓ} : {A : Type ℓ} → Outcome A → Bool
is_running (done a) = false
is_running undefined = false
is_running running = true

module _ {S C : Type 0} (openssl : OpenSsl S) where
  -- A test of the outcome that holds of what is undefined, and of every loop that can follow.
  after_round-holds :
      (test : Outcome (Tls S C × List NetAction) → Bool) (offset : ℕ) (round : ℤ × TlsReaction S C)
      (acts : List NetAction)
      (again : ℕ → Tls S C → List NetAction → Outcome (Tls S C × List NetAction))
      → test undefined ≡ false
      → ((n : ℕ) (u : Tls S C) (acts' : List NetAction)
          → pos offset +ℤ round.0 ≡ pos n
          → test (again n u acts') ≡ false)
      → test (after_round openssl offset round acts again) ≡ false
  unfolding after_round
  after_round-holds test offset (i, none) acts again u f = u
  after_round-holds test offset (i, some (v, more)) acts again u f =
      sum_cases (pos offset +ℤ i) (λ n e. f n v (acts ++ more) e)
    where
      sum_cases :
          (z : ℤ)
          → ((n : ℕ) → z ≡ pos n → test (again n v (acts ++ more)) ≡ false)
          → test (elim z [ pos n ↦ again n v (acts ++ more) | negsuc n ↦ undefined ]) ≡ false
      sum_cases (pos n) g = g n refl
      sum_cases (negsuc n) g = u

  failed_rounds :
      ((s : S) (rest : List ℕ) → (openssl.ssl_write s rest).1 ≤ℤ pos 0)
      → (fuel offset : ℕ) (text : List ℕ) (t : Tls S C) (acts : List NetAction)
      → offset < length text
      → is_done (write_rounds openssl fuel text offset t acts) ≡ false
  unfolding write_rounds write_round
  failed_rounds fails zero offset text t acts h = rw (lt→ltb offset (length text) h) refl
  failed_rounds fails (suc fuel) offset text t acts h =
      rw (lt→ltb offset (length text) h) (elim (Option-cases t.ssl) [
        | inl null ↦ rw (null) refl
        | inr (s, e) ↦ rw (e) (
            after_round-holds is_done offset (write_round openssl (drop offset text) s t) acts
              (λ n u acts'. write_rounds openssl fuel text n u acts') refl
              (λ n u acts' sum. failed_rounds fails fuel n text u acts' (
                smaller offset n (openssl.ssl_write s (drop offset text)).1 (length text)
                  (fails s (drop offset text)) sum h)))
      ])
    where
      smaller :
          (offset n : ℕ) (i : ℤ) (len : ℕ)
          → i ≤ℤ pos 0
          → pos offset +ℤ i ≡ pos n
          → offset < len
          → n < len
      smaller offset n i len f sum lt =
          let parts = +ℤ_parts (pos offset) i in
          let a = ap pos_part sum in let b = ap neg_part sum in omega (arith, parts, a, b)

  -- Where SSL_write fails each time, do_socket_write of a text never returns: after any number of rounds
  -- the loop is still running, or something undefined has happened.
  pub failed_write-never_done :
      (t : Tls S C) (text : List ℕ) (fuel : ℕ)
      → ((s : S) (rest : List ℕ) → (openssl.ssl_write s rest).1 ≤ℤ pos 0)
      → 0 < length text
      → is_done (write_rounds openssl fuel text 0 t []) ≡ false
  failed_write-never_done t text fuel fails h = failed_rounds fails fuel 0 text t [] h

  writing_rounds :
      ((s : S) (rest : List ℕ)
        → 0 < length rest
        → (n : ℕ) × ((openssl.ssl_write s rest).1 ≡ pos n) × (0 < n) × (n ≤ length rest))
      → (fuel offset : ℕ) (text : List ℕ) (t : Tls S C) (acts : List NetAction)
      → length text ≤ offset + fuel
      → is_running (write_rounds openssl fuel text offset t acts) ≡ false
  unfolding write_rounds write_round
  writing_rounds writes zero offset text t acts h =
      rw (not_less offset (length text) (omega arith)) refl
    where
      not_less : (a b : ℕ) → b ≤ a → ltb a b ≡ false
      not_less a b h = ground arith
  writing_rounds writes (suc fuel) offset text t acts h =
      elim (Bool-cases (ltb offset (length text))) [
        | inr whole ↦ rw (whole) refl
        | inl part ↦ rw (part) (elim (Option-cases t.ssl) [
          | inl null ↦ rw (null) refl
          | inr (s, e) ↦
              let some_left : 0 < length (drop offset text) =
                omega (arith, length-drop offset text, ltb→lt offset (length text) part) in
              let (m, wrote, progress, within) = writes s (drop offset text) some_left in
              rw (e) (
                after_round-holds is_running offset (write_round openssl (drop offset text) s t)
                  acts (λ n u acts'. write_rounds openssl fuel text n u acts') refl
                  (λ n u acts' sum.
                    let parts = +ℤ_parts (pos offset) (openssl.ssl_write s (drop offset text)).1 in
                    let a = ap pos_part sum in
                    let b = ap neg_part sum in
                    let c = ap pos_part wrote in
                    let d = ap neg_part wrote in
                    writing_rounds writes fuel n text u acts' (omega (arith, parts, a, b, c, d))))
        ])
      ]

  -- Where each SSL_write takes a byte or more of what it is given, the loop ends within a round for
  -- each byte.
  pub do_socket_write_ends :
      (t : Tls S C) (text : List ℕ)
      → ((s : S) (rest : List ℕ)
          → 0 < length rest
          → (n : ℕ) × ((openssl.ssl_write s rest).1 ≡ pos n) × (0 < n) × (n ≤ length rest))
      → is_running (do_socket_write openssl t text) ≡ false
  unfolding do_socket_write
  do_socket_write_ends t text writes = writing_rounds writes (length text) 0 text t [] (omega arith)
