-- ===== src/Net/Tls/Write.antt =====
-- tls_interface.cpp: the loop of do_socket_write, which adds the result of SSL_write to its offset also
-- where that result reports an error.
pub mod Laws
mod Tests
use epic_miner.Common.{
  ℕ, zero, suc, ◌+◌, ◌-◌, Bool, true, false, not, List, [], ◌∷◌, ◌++◌, Option, none, some, ltb,
  if◌then◌else◌, length, drop,
}
use epic_miner.Common.Int.{ℤ, pos, negsuc, pos_part, neg_part, ◌+ℤ◌}
use epic_miner.Net.Send.{Net, NetAction}
use epic_miner.Net.Tls.{OpenSsl, Tls, TlsReaction, then_do, flush_tls_pending, give_up}

-- `running` is a loop that has not ended after the rounds that it was given; `undefined` is a read in
-- front of the text, or what is undefined in the calls.
pub data Outcome {ℓ} (A : Type ℓ) : Type ℓ where
  done : A → Outcome A
  undefined running : Outcome A

abbrev pub is_positive : ℤ → Bool
is_positive (pos n) = ltb 0 n
is_positive (negsuc n) = false

module _ {S C : Type 0} (openssl : OpenSsl S) where
  -- One round: i, and the connection afterwards.
  pub write_round : List ℕ → S → Tls S C → ℤ × TlsReaction S C
  write_round rest s t =
      let (s', i) = openssl.ssl_write s rest in
      let t' : Tls S C = record t { ssl = some s' } in
      (
        i,
        then_do (if is_positive i then some (t', []) else give_up openssl s' t')
            (flush_tls_pending openssl),
      )

  -- What follows a round; `again` is the loop from the next offset on.
  pub after_round :
      ℕ
      → ℤ × TlsReaction S C
      → List NetAction
      → (ℕ → Tls S C → List NetAction → Outcome (Tls S C × List NetAction))
      → Outcome (Tls S C × List NetAction)
  after_round offset (i, none) acts again = undefined
  after_round offset (i, some (u, more)) acts again = elim (pos offset +ℤ i) [
    | pos n ↦ again n u (acts ++ more)
    | negsuc n ↦ undefined
  ]

  pub write_rounds : ℕ → List ℕ → ℕ → Tls S C → List NetAction → Outcome (Tls S C × List NetAction)
  unfolding write_round after_round
  write_rounds zero text offset t acts =
      if ltb offset (length text) then running else done (t, acts)
  write_rounds (suc fuel) text offset t acts =
      if not (ltb offset (length text)) then done (t, acts) else elim t.ssl [
        | none ↦ undefined
        | some s ↦
            after_round offset (write_round (drop offset text) s t) acts
              (λ n u acts'. write_rounds fuel text n u acts')
      ]

  -- A round for each byte.
  pub do_socket_write : Tls S C → List ℕ → Outcome (Tls S C × List NetAction)
  unfolding write_rounds
  do_socket_write t text = write_rounds (length text) text 0 t []
