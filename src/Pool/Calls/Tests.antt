-- ===== src/Pool/Calls/Tests.antt =====
-- The call table: runs, and its theorems at concrete inputs.
use epic_miner.Common.{ℕ, ◌+◌, ◌≡◌, refl, ◌≢◌, true, false, ◌∷◌, arith, some, replicate}
use epic_miner.Pool.Calls.{
  invalid, login, result, CallMapping, CallTable, find_call, register_call, place,
}
use epic_miner.Pool.Calls.Laws.{IsValid, waiting, expected}
use epic_miner.Pool.Calls.Register.{register_call_lem}

abbrev free : CallMapping
free = record { call_id = 0; call = invalid; time_made = 0; miner_id = 0 }

abbrev logged_in : CallMapping
logged_in = record { call_id = 0; call = login; time_made = 100; miner_id = 0 }

abbrev one_call : CallTable
one_call = record { g_call_id = 1; call_map = logged_in ∷ replicate 7 free }

never {ℓ} : {A : Type ℓ} → false ≡ true → A
never h = absurd (cc (h))

one_call-IsValid : IsValid one_call
unfolding expected
one_call-IsValid = record {
  eight = refl;
  distinct =
      (λ h. (omega arith, refl), (never, (never, (never, (never, (never, (never, (never, tt))))))));
}

abbrev two_calls : CallTable
two_calls = record {
  g_call_id = 2;
  call_map =
      logged_in
      ∷ record { call_id = 1; call = result; time_made = 250; miner_id = 7 }
      ∷ replicate 6 free;
}

registers : register_call one_call result 7 250 ≡ some (1, two_calls)
unfolding register_call place
registers = refl

register_call_lem_example :
    IsValid two_calls
    × (waiting two_calls.call_map ≡ waiting one_call.call_map + 1)
    × ((find_call one_call 1).0.call ≡ invalid)
    × ((find_call two_calls 1).0 ≡ record { call = result; miner_id = 7 })
    × (◌≢◌ {A = ℕ} 1 0 → (find_call two_calls 0).0 ≡ (find_call one_call 0).0)
register_call_lem_example =
    register_call_lem one_call two_calls result 7 250 1 0 one_call-IsValid refl (omega arith)
      registers
