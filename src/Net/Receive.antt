-- ===== src/Net/Receive.antt =====
-- net_interface.cpp: consume_loop, alloc_recv_buffer and on_socket_read_st. The receive buffer is
-- given by the bytes received and not yet consumed: recv_pos is their number. A consumer may change
-- the bytes that it is given; it returns how many it has consumed, or `none` for -1.
pub mod Laws
mod Tests
use epic_miner.Common.{
  ℕ, zero, suc, ◌+◌, ◌-◌, Bool, true, false, ◌||◌, List, [], ◌∷◌, ◌++◌, Option, none, some, ltb,
  ◌==◌, if◌then◌else◌, length, take, drop,
}

pub record Consumed (S : Type 0) : Type 0 where
  pub state : S
  pub window : List ℕ
  pub count : Option ℕ

abbrev pub Consumer : Type 0 → Type 0
Consumer S = S → List ℕ → Consumed S

-- The consumer's state, the bytes in the buffer, and the value returned.
pub record Drained (S : Type 0) : Type 0 where
  pub state : S
  pub bytes : List ℕ
  pub result : Bool

-- recv_buf
abbrev pub recv_size : ℕ
recv_size = 4096

-- What follows one call of the consumer; `again` is the loop on the bytes that are left. `none` is
-- the failed assertion on the count.
unfoldable pub after_call :
    {S : Type 0}
    → List ℕ
    → List ℕ
    → Consumed S
    → (List ℕ → List ℕ → Option (Drained S))
    → Option (Drained S)
after_call before window c again = elim c.count [
  | none ↦ some (record { state = c.state; bytes = before ++ c.window; result = false })
  | some cd ↦
      let rest = drop cd c.window in
      let more = again (before ++ take cd c.window) rest in
      if ltb (length window) cd
      then none
      else if cd == 0 || length rest == 0
      then some (record { state = c.state; bytes = rest; result = true })
      else more
]

module _ {S : Type 0} (consume : Consumer S) where
  -- The loop with `before` consumed, on `fuel` rounds.
  unfoldable pub consume_rounds : ℕ → S → List ℕ → List ℕ → Option (Drained S)
  consume_rounds zero s before window = none
  consume_rounds (suc fuel) s before window =
      let c = consume s window in
      after_call before window c (λ before' rest. consume_rounds fuel c.state before' rest)

  -- Each round but the last consumes a byte at least.
  unfoldable pub consume_loop : S → List ℕ → Option (Drained S)
  unfolding consume_rounds
  consume_loop s bytes = consume_rounds (suc (length bytes)) s [] bytes

-- The room that alloc_recv_buffer offers.
pub alloc_recv_buffer : List ℕ → ℕ
alloc_recv_buffer bytes = recv_size - length bytes
