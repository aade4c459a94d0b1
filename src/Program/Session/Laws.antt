-- ===== src/Program/Session/Laws.antt =====
-- A share and a job, from one end of the program to the other.
use epic_miner.Common.{
  ℕ, zero, suc, ◌+◌, ◌%◌, ◌^◌, ◌≡◌, refl, Bool, List, [], ◌∷◌, set, get_elem?, Option, none, some,
}
use epic_miner.Json.{Members}
use epic_miner.Pool.State.{Pool, Action}
use epic_miner.Pool.Messages.{process_json_doc}
use epic_miner.Miner.Record.{Miner}
use epic_miner.Executor.Errors.{SessionCounters}
use epic_miner.Executor.State.{Executor, difficulty}
use epic_miner.Program.Session.{Now, called, all_called, with_pool, on_message}

-- The counters after a verdict of the server: one more share of its kind, and for an accepted one the
-- target's difficulty.
abbrev pub verdict : ℕ → Option (List ℕ) → SessionCounters → SessionCounters
verdict target none ctr = record ctr {
  accepted_shares_cnt = (ctr.accepted_shares_cnt + 1) % 2 ^ 64;
  total_diff = (ctr.total_diff + difficulty target) % 2 ^ 64;
}
verdict target (some msg) ctr = record ctr {
  rejected_shares_cnt = (ctr.rejected_shares_cnt + 1) % 2 ^ 64;
}

get-set :
    {A : Type 0} (xs : List A) (i : ℕ) (x y : A)
    → get_elem? xs i ≡ some x
    → get_elem? (set xs i y) i ≡ some y
get-set [] i x y e = absurd (cc (e))
get-set (z ∷ xs) zero x y e = refl
get-set (z ∷ xs) (suc i) x y e = get-set xs i x y e

pub pool_at :
    (ex : Executor) (pool_id : ℕ) (p p' : Pool)
    → get_elem? ex.pools pool_id ≡ some p
    → get_elem? (with_pool pool_id p' ex).pools pool_id ≡ some p'
unfolding with_pool
pool_at ex pool_id p p' at = get-set ex.pools pool_id p p' at

pub on_message_lem :
    (f : ℕ → ℕ) (now : Now) (pool_id : ℕ) (doc : Members) (ex ex' : Executor) (p p' : Pool)
    (acts : List Action) (done : Bool)
    → get_elem? ex.pools pool_id ≡ some p
    → process_json_doc p doc now.ms ≡ some ((p', acts), done)
    → all_called f now acts (with_pool pool_id p' ex) ≡ some ex'
    → on_message f now pool_id doc ex ≡ some (ex', done)
unfolding on_message
on_message_lem f now pool_id doc ex ex' p p' acts done at e c =
    rw (at, on_message) (rw (e, on_message) (rw (c) refl))

pub one_called :
    (f : ℕ → ℕ) (now : Now) (act : Action) (ex ex' : Executor)
    → called f now act ex ≡ some ex'
    → all_called f now (act ∷ []) ex ≡ some ex'
unfolding all_called
one_called f now act ex ex' e = rw (e, all_called) refl
