-- ===== src/Program/Session/Known.antt =====
-- What a message makes of the calls that wait: the miners that they name.
use epic_miner.Common.{
  ℕ, ◌<◌, ◌≡◌, refl, inl, inr, Bool, true, false, ◌&&◌, List, [], ◌∷◌, All, Option, none, some,
  Option-cases, Bool-cases, codes, map, c_str, strcmp_eq, ◌==◌,
}
use epic_miner.Json.{Value, Members, as_string, as_uint, as_object, get_object_member}
use epic_miner.Pool.State.{do_connect}
use epic_miner.Common.{map}
use epic_miner.Pool.Calls.{invalidate, flush_call_map}
use epic_miner.Pool.Calls.{
  CallType, is_valid, invalid, login, result, keepalive, CallMapping, FindCallRes, find_in,
  find_call,
}
use epic_miner.Pool.Fill.{Filled, filled, rejected, read_params}
use epic_miner.Pool.State.{
  Pool, Action, Reaction, log_error, on_pool_new_job, on_pool_disconnect, on_result_reply,
  net_connect, net_shutdown, socket_write, send_formatted, protocol_error,
}
use epic_miner.Pool.Messages.{
  Handled, accept_job, process_pool_job, login_members, login_job, process_pool_login,
  process_pool_keepalive, round_trip, dispatch_reply, Reply, malformed, reply, read_reply,
  handle_reply, handle_method, handle_id, process_json_doc,
}

abbrev pub is_result : CallType → Bool
is_result result = true
is_result _ = false

-- The calls of shares name miners below `n`.
abbrev pub Known : ℕ → List CallMapping → Type 0
Known n = All (λ (mp : CallMapping). is_result mp.call ≡ true → mp.miner_id < n)

find_in-Known :
    (n id : ℕ) (calls : List CallMapping)
    → Known n calls
    → (is_result (find_in id calls).0.call ≡ true → (find_in id calls).0.miner_id < n)
      × Known n (find_in id calls).1
unfolding find_in
find_in-Known n id [] k = ((λ e. absurd (cc (e))), tt)
find_in-Known n id (mp ∷ rest) (k, ks) =
    let (found, kept) = find_in-Known n id rest ks in
    elim (Bool-cases (is_valid mp.call && mp.call_id == id)) [
      | inl hit ↦ rw (hit) (k, (λ e. absurd (cc (e)), ks))
      | inr miss ↦ rw (miss) (found, (k, kept))
    ]

flush-Known : (n : ℕ) (calls : List CallMapping) → Known n (map invalidate calls)
unfolding invalidate
flush-Known n [] = tt
flush-Known n (mp ∷ rest) = ((λ e. absurd (cc (e))), flush-Known n rest)

-- A pool that connects waits for no share.
do_connect-Known : (n now : ℕ) (p : Pool) → Known n (do_connect p now).0.calls.call_map
unfolding do_connect flush_call_map
do_connect-Known n now p = flush-Known n p.calls.call_map

-- What a pool asks of the executor that has `n` miners.
abbrev pub Asks : ℕ → ℕ → Action → Type 0
Asks n i (on_result_reply target err rtt miner_id) = miner_id < n
Asks n i (on_pool_new_job pool_id) = pool_id ≡ i
Asks n i (log_error err) = Unit {0}
Asks n i (on_pool_disconnect pool_id) = ⊥
Asks n i net_connect = Unit {0}
Asks n i net_shutdown = Unit {0}
Asks n i (socket_write text) = Unit {0}
Asks n i (send_formatted text) = Unit {0}

pub record Sane (n i : ℕ) (r : Reaction × Bool) : Type 0 where
  pub calls : Known n r.0.0.calls.call_map
  pub same_id : r.0.0.pool_id ≡ i
  pub acts : All (Asks n i) r.0.1

abbrev pub IsSane : ℕ → ℕ → Handled → Type 0
IsSane n i none = Unit {0}
IsSane n i (some r) = Sane n i r

module _ (n : ℕ) where
  protocol_error-Sane :
      (p : Pool) (err : List ℕ) → Known n p.calls.call_map → Sane n p.pool_id (protocol_error p err)
  unfolding protocol_error
  protocol_error-Sane p err k = record { calls = k; same_id = refl; acts = (tt, tt) }

  accept_job-Sane :
      (p : Pool) (f : Filled) → Known n p.calls.call_map → Sane n p.pool_id (accept_job p f)
  unfolding accept_job
  accept_job-Sane p (filled job) k = record { calls = k; same_id = refl; acts = (refl, tt) }
  accept_job-Sane p (rejected err job) k = protocol_error-Sane (record p { my_job = job }) err k

  process_pool_job-Sane :
      (p : Pool) (ms : Members)
      → Known n p.calls.call_map
      → Sane n p.pool_id (process_pool_job p ms)
  unfolding process_pool_job
  process_pool_job-Sane p ms k = elim (Option-cases (read_params ms)) [
    | inl e ↦ rw (e, process_pool_job) (protocol_error-Sane p _ k)
    | inr (params, e) ↦ rw (e, process_pool_job) (accept_job-Sane p _ k)
  ]

  params-Sane :
      (p : Pool) (v : Option Value)
      → Known n p.calls.call_map
      → Sane n p.pool_id (elim v [
        | none ↦ protocol_error p (codes "PARSE error: Protocol error 2")
        | some params ↦ elim (as_object params) [
          | none ↦ protocol_error p (codes "PARSE error: Protocol error 2")
          | some ms ↦ process_pool_job p ms
        ]
      ])
  params-Sane p none k = protocol_error-Sane p _ k
  params-Sane p (some v) k = elim (Option-cases (as_object v)) [
    | inl e ↦ rw (e) (protocol_error-Sane p _ k)
    | inr (ms, e) ↦ rw (e) (process_pool_job-Sane p ms k)
  ]

  handle_method-Sane :
      (p : Pool) (doc : Members) (method : Value)
      → Known n p.calls.call_map
      → Sane n p.pool_id (handle_method p doc method)
  unfolding handle_method
  handle_method-Sane p doc method k = elim (Option-cases (as_string method)) [
    | inl e ↦ rw (e, handle_method) (protocol_error-Sane p _ k)
    | inr (name, e) ↦ elim (Bool-cases (strcmp_eq name (codes "job"))) [
      | inr other ↦ rw (e, handle_method, other) (protocol_error-Sane p _ k)
      | inl job ↦
          rw (e, handle_method, job) (params-Sane p (get_object_member doc (codes "params")) k)
    ]
  ]

  login-Sane :
      (p : Pool) (value : Option Members) (err : Option (List ℕ))
      → Known n p.calls.call_map
      → IsSane n p.pool_id (process_pool_login p value err)
  unfolding process_pool_login login_job
  login-Sane p value (some err) k = protocol_error-Sane p _ k
  login-Sane p none none k = tt
  login-Sane p (some value) none k = elim (Option-cases (login_members value)) [
    | inl e ↦ rw (e, process_pool_login) (protocol_error-Sane p _ k)
    | inr ((id, job), e) ↦ elim (Option-cases (as_object job)) [
      | inl other ↦ rw (e, process_pool_login) (rw (other) tt)
      | inr (ms, object) ↦
          rw (e, process_pool_login)
            (rw (object) (process_pool_job-Sane (record p { pool_miner_id = c_str id }) ms k))
    ]
  ]

  keepalive-Sane :
      (p : Pool) (err : Option (List ℕ))
      → Known n p.calls.call_map
      → Sane n p.pool_id (process_pool_keepalive p err)
  unfolding process_pool_keepalive
  keepalive-Sane p none k = record { calls = k; same_id = refl; acts = tt }
  keepalive-Sane p (some err) k = protocol_error-Sane p _ k

  dispatch_reply-Sane :
      (p : Pool) (res : FindCallRes) (call_id : ℕ) (value : Option Members) (err : Option (List ℕ))
      (ts_now : ℕ)
      → Known n p.calls.call_map
      → (is_result res.call ≡ true → res.miner_id < n)
      → IsSane n p.pool_id (dispatch_reply p res call_id value err ts_now)
  unfolding dispatch_reply
  dispatch_reply-Sane p res call_id value err ts_now k known = by_type res.call known
    where
      by_type :
          (t : CallType)
          → (is_result t ≡ true → res.miner_id < n)
          → IsSane n p.pool_id (elim t [
            | invalid ↦ some (protocol_error p (codes "Invalid call_id"))
            | login ↦ process_pool_login p value err
            | result ↦ some (
              (
                p,
                on_result_reply p.my_job.target err (round_trip p call_id ts_now) res.miner_id ∷ [],
              ),
              true,
            )
            | keepalive ↦ some (process_pool_keepalive p err)
          ])
      by_type invalid b = protocol_error-Sane p _ k
      by_type login b = login-Sane p value err k
      by_type result b = record { calls = k; same_id = refl; acts = (b refl, tt) }
      by_type keepalive b = keepalive-Sane p err k

  handle_reply-Sane :
      (p : Pool) (call_id : ℕ) (r : Reply) (ts_now : ℕ)
      → Known n p.calls.call_map
      → IsSane n p.pool_id (handle_reply p call_id r ts_now)
  unfolding handle_reply find_call
  handle_reply-Sane p call_id (malformed err) ts_now k = protocol_error-Sane p err k
  handle_reply-Sane p call_id (reply value err) ts_now k =
      let (found, kept) = find_in-Known n call_id p.calls.call_map k in
      dispatch_reply-Sane (record p { calls = (find_call p.calls call_id).1 })
        (find_call p.calls call_id).0 call_id value err ts_now kept found

  handle_id-Sane :
      (p : Pool) (doc : Members) (id : Option ℕ) (ts_now : ℕ)
      → Known n p.calls.call_map
      → IsSane n p.pool_id (handle_id p doc id ts_now)
  unfolding handle_id
  handle_id-Sane p doc none ts_now k = protocol_error-Sane p _ k
  handle_id-Sane p doc (some id) ts_now k = handle_reply-Sane p id (read_reply doc) ts_now k

  pub process_json_doc-Sane :
      (p : Pool) (doc : Members) (ts_now : ℕ)
      → Known n p.calls.call_map
      → IsSane n p.pool_id (process_json_doc p doc ts_now)
  unfolding process_json_doc
  process_json_doc-Sane p doc ts_now k =
      elim (Option-cases (get_object_member doc (codes "method"))) [
        | inr (method, e) ↦ rw (e, process_json_doc) (handle_method-Sane p doc method k)
        | inl e ↦ elim (Option-cases (get_object_member doc (codes "id"))) [
          | inl none_there ↦
              rw (e, process_json_doc) (rw (none_there) (handle_id-Sane p doc none ts_now k))
          | inr (id, there) ↦
              rw (e, process_json_doc) (rw (there) (handle_id-Sane p doc (as_uint id) ts_now k))
        ]
      ]
