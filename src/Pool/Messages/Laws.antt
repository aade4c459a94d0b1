-- ===== src/Pool/Messages/Laws.antt =====
-- What every message of the server does to the pool, and what it makes the pool do.
use epic_miner.Common.{
  ℕ, ◌≡◌, refl, sym, ap, ◌∙◌, inl, inr, true, List, [], ◌∷◌, Option, none, some, Bool-cases,
  Option-cases, codes, c_str, strcmp_eq, arith,
}
use epic_miner.Json.{Value, Members, as_string, as_uint, as_object, get_object_member, is_null}
use epic_miner.Pool.Calls.{CallType, invalid, login, result, keepalive, find_call}
use epic_miner.Pool.Fill.{JobParams, Filled, filled, rejected, read_params, fill_job}
use epic_miner.Pool.State.{Pool, on_pool_new_job, on_result_reply, protocol_error, error_text}
use epic_miner.Pool.Messages.{
  accept_job, process_pool_job, login_members, login_job, process_pool_login,
  process_pool_keepalive, round_trip, dispatch_reply, malformed, reply, Reply, read_reply,
  read_result, read_error, handle_reply, handle_method, handle_id, process_json_doc,
}
use epic_miner.Pool.Messages.Effects.{
  IsReply, Answers, Calls, JobIn, in_method, in_login, Refusal, bad_method, unsupported, no_params,
  bad_params, missing, bad_job, no_id, bad_id, bad_reply, unknown_call, login_error,
  login_incomplete, keepalive_error, refused, gains_job, result_reply, answered, EffectOf, Handles,
}

-- A reply has a value or an error.
read_result_some : (o : Option Value) → read_result o ≡ reply none none → (A : Type 0) → A
unfolding read_result
read_result_some none e A = absurd (cc (e))
read_result_some (some v) e A = elim (Option-cases (as_object v)) [
  | inl other ↦ absurd (ground (arith, other, e))
  | inr (ms, object) ↦ absurd (ground (arith, object, e))
]

read_reply_some : (doc : Members) → read_reply doc ≡ reply none none → (A : Type 0) → A
unfolding read_reply read_error
read_reply_some doc e A = elim (Option-cases (get_object_member doc (codes "error"))) [
  | inl gone ↦
      read_result_some (get_object_member doc (codes "result")) (rw (gone, read_reply) at e) A
  | inr (v, here) ↦ elim (Bool-cases (is_null v)) [
    | inl null ↦
        read_result_some (get_object_member doc (codes "result"))
          (rw (null) at (rw (here, read_reply) at e)) A
    | inr other ↦ absurd (ground (arith, here, other, e))
  ]
]

module _ (p : Pool) (doc : Members) (ts_now : ℕ) where
  -- The message is handled by a pool that differs in its call table, or in its id too.
  module _ (q : Pool) (same_state : q.state ≡ p.state) (same_job : q.my_job ≡ p.my_job)
      (same_id : q.pool_id ≡ p.pool_id) where
    protocol_error-Effect :
        (err : List ℕ) → Refusal p doc → EffectOf p doc ts_now (protocol_error q err)
    unfolding protocol_error
    protocol_error-Effect err why = refused (error_text q err) why refl refl same_state

    accept_job-Effect :
        (param : Members) (params : JobParams) (f : Filled)
        → JobIn p.calls doc param
        → read_params param ≡ some params
        → fill_job params q.my_job ≡ f
        → EffectOf p doc ts_now (accept_job q f)
    unfolding accept_job protocol_error
    accept_job-Effect param params (filled job) src has e =
        gains_job param params job src has (sym (ap (fill_job params) same_job) ∙ e)
          (ap (λ i. on_pool_new_job i ∷ []) same_id) refl refl refl
    accept_job-Effect param params (rejected err job) src has e =
        refused (error_text (record q { my_job = job }) err)
          (bad_job param params err job src has (sym (ap (fill_job params) same_job) ∙ e)) refl refl
          same_state

    process_pool_job-Effect :
        (param : Members)
        → JobIn p.calls doc param
        → EffectOf p doc ts_now (process_pool_job q param)
    unfolding process_pool_job
    process_pool_job-Effect param src = elim (Option-cases (read_params param)) [
      | inl e ↦ rw (e, process_pool_job) (protocol_error-Effect _ (missing param src e))
      | inr (params, e) ↦
          rw (e, process_pool_job)
            (accept_job-Effect param params (fill_job params q.my_job) src e refl)
    ]

  handle_method-Effect :
      (method : Value)
      → get_object_member doc (codes "method") ≡ some method
      → EffectOf p doc ts_now (handle_method p doc method)
  unfolding handle_method
  handle_method-Effect method has = elim (Option-cases (as_string method)) [
    | inl e ↦
        rw (e, handle_method) (protocol_error-Effect p refl refl refl _ (bad_method method has e))
    | inr (name, e) ↦
        let named : Calls doc name = record { method = method; has_method = has; is_text = e } in
        elim (Bool-cases (strcmp_eq name (codes "job"))) [
          | inr other ↦
              rw (e, handle_method, other)
                (protocol_error-Effect p refl refl refl _ (unsupported name named other))
          | inl job ↦
              rw (e, handle_method, job)
                (by_params name named job (get_object_member doc (codes "params")) refl)
        ]
  ]
    where
      by_object :
          (name : List ℕ) (v : Value)
          → Calls doc name
          → strcmp_eq name (codes "job") ≡ true
          → get_object_member doc (codes "params") ≡ some v
          → (o : Option Members) → as_object v ≡ o
          → EffectOf p doc ts_now (elim o [
            | none ↦ protocol_error p (codes "PARSE error: Protocol error 2")
            | some ms ↦ process_pool_job p ms
          ])
      by_object name v named job at none e =
          protocol_error-Effect p refl refl refl _ (bad_params name v named at e)
      by_object name v named job at (some ms) e =
          process_pool_job-Effect p refl refl refl ms (in_method name v ms named job at e)

      by_params :
          (name : List ℕ)
          → Calls doc name
          → strcmp_eq name (codes "job") ≡ true
          → (v : Option Value) → get_object_member doc (codes "params") ≡ v
          → EffectOf p doc ts_now (elim v [
            | none ↦ protocol_error p (codes "PARSE error: Protocol error 2")
            | some params ↦ elim (as_object params) [
              | none ↦ protocol_error p (codes "PARSE error: Protocol error 2")
              | some ms ↦ process_pool_job p ms
            ]
          ])
      by_params name named job none e =
          protocol_error-Effect p refl refl refl _ (no_params name named e)
      by_params name named job (some v) e = by_object name v named job e (as_object v) refl

  module _ (call_id : ℕ) where
    -- The pool after the call has been looked up.
    abbrev found : Pool
    found = record p { calls = (find_call p.calls call_id).1 }

    login-Effect :
        (value : Option Members) (err : Option (List ℕ))
        → Answers p.calls doc call_id login value err
        → Handles p doc ts_now (process_pool_login found value err)
    unfolding process_pool_login
    login-Effect value (some err) a =
        protocol_error-Effect found refl refl refl _ (login_error call_id value err a)
    login-Effect none none a = read_reply_some doc a.is_reply.content _
    login-Effect (some value) none a = by_members (login_members value) refl
      where
        by_job :
            (id : List ℕ) (job : Value)
            → login_members value ≡ some (id, job)
            → (o : Option Members) → as_object job ≡ o
            → Handles p doc ts_now (login_job (record found { pool_miner_id = c_str id }) o)
        by_job id job at none e =
            unfold login_job in
            record {
              call_id = call_id;
              value = value;
              id = id;
              job = job;
              answers = a;
              has_job = at;
              no_object = e;
            }
        by_job id job at (some param) e =
            unfold login_job in
            process_pool_job-Effect (record found { pool_miner_id = c_str id }) refl refl refl param
              (in_login call_id value id job param a at e)

        by_members :
            (o : Option (List ℕ × Value))
            → login_members value ≡ o
            → Handles p doc ts_now (elim o [
              | none ↦ some (protocol_error found (codes "PARSE error: Login protocol error 1"))
              | some (id, job) ↦
                  login_job (record found { pool_miner_id = c_str id }) (as_object job)
            ])
        by_members none e =
            protocol_error-Effect found refl refl refl _ (login_incomplete call_id value a e)
        by_members (some (id, job)) e = by_job id job e (as_object job) refl

    keepalive-Effect :
        (value : Option Members) (err : Option (List ℕ))
        → Answers p.calls doc call_id keepalive value err
        → EffectOf p doc ts_now (process_pool_keepalive found err)
    unfolding process_pool_keepalive
    keepalive-Effect value none a = answered call_id value a refl refl refl refl refl
    keepalive-Effect value (some err) a =
        protocol_error-Effect found refl refl refl _ (keepalive_error call_id value err a)

    dispatch_reply-Effect :
        (value : Option Members) (err : Option (List ℕ))
        → IsReply doc call_id value err
        → Handles p doc ts_now
            (dispatch_reply found (find_call p.calls call_id).0 call_id value err ts_now)
    unfolding dispatch_reply round_trip
    dispatch_reply-Effect value err r = by_type (find_call p.calls call_id).0.call refl
      where
        by_type :
            (t : CallType)
            → (find_call p.calls call_id).0.call ≡ t
            → Handles p doc ts_now (elim t [
              | invalid ↦ some (protocol_error found (codes "Invalid call_id"))
              | login ↦ process_pool_login found value err
              | result ↦ some (
                (
                  found,
                  on_result_reply p.my_job.target err
                        (round_trip found call_id ts_now)
                        (find_call p.calls call_id).0.miner_id
                      ∷ [],
                ),
                true,
              )
              | keepalive ↦ some (process_pool_keepalive found err)
            ])
        by_type invalid e =
            protocol_error-Effect found refl refl refl _
              (unknown_call call_id value err (record { is_reply = r; known = e }))
        by_type login e = login-Effect value err (record { is_reply = r; known = e })
        by_type result e =
            result_reply call_id value err (record { is_reply = r; known = e }) refl refl refl refl
              refl
        by_type keepalive e = keepalive-Effect value err (record { is_reply = r; known = e })

  handle_reply-Effect :
      (call_id : ℕ) (id : Value) (r : Reply)
      → get_object_member doc (codes "method") ≡ none
      → get_object_member doc (codes "id") ≡ some id
      → as_uint id ≡ some call_id
      → read_reply doc ≡ r
      → Handles p doc ts_now (handle_reply p call_id r ts_now)
  unfolding handle_reply
  handle_reply-Effect call_id id (malformed err) m i n e =
      protocol_error-Effect p refl refl refl err (bad_reply err m e)
  handle_reply-Effect call_id id (reply value err) m i n e =
      dispatch_reply-Effect call_id value err
        (record { no_method = m; id = id; has_id = i; id_number = n; content = e })

  -- What a message of the server does, by its members. It is a job (the parameters of the method "job",
  -- or part of the reply to the login) that fills my_job: the executor is told once, and the state is
  -- has_job. Or it answers a result: the executor is told the target, the verdict, the round trip
  -- time and the miner of the call. Or it answers a keepalive: nothing more is done. The call
  -- answered is taken out of the table, and state and job stay. Or it is refused, for one of the
  -- thirteen reasons of `Refusal`: one error is logged, and the state stays. Only a reply to the
  -- login whose "job" is no object fails an assertion.
  pub process_json_doc-Handles : Handles p doc ts_now (process_json_doc p doc ts_now)
  unfolding process_json_doc
  process_json_doc-Handles = by_method (get_object_member doc (codes "method")) refl
    where
      by_id :
          (id : Value)
          → get_object_member doc (codes "method") ≡ none
          → get_object_member doc (codes "id") ≡ some id
          → (o : Option ℕ) → as_uint id ≡ o
          → Handles p doc ts_now (handle_id p doc o ts_now)
      by_id id m i none e =
          unfold handle_id in protocol_error-Effect p refl refl refl _ (bad_id id m i e)
      by_id id m i (some call_id) e =
          unfold handle_id in handle_reply-Effect call_id id (read_reply doc) m i e refl

      without_method :
          get_object_member doc (codes "method") ≡ none
          → (id : Option Value) → get_object_member doc (codes "id") ≡ id
          → Handles p doc ts_now (elim id [
            | none ↦ handle_id p doc none ts_now
            | some id ↦ handle_id p doc (as_uint id) ts_now
          ])
      without_method m none e =
          unfold handle_id in protocol_error-Effect p refl refl refl _ (no_id m e)
      without_method m (some id) e = by_id id m e (as_uint id) refl

      by_method :
          (method : Option Value)
          → get_object_member doc (codes "method") ≡ method
          → Handles p doc ts_now (elim method [
            | some method ↦ some (handle_method p doc method)
            | none ↦ elim (get_object_member doc (codes "id")) [
              | none ↦ handle_id p doc none ts_now
              | some id ↦ handle_id p doc (as_uint id) ts_now
            ]
          ])
      by_method (some method) e = handle_method-Effect method e
      by_method none e = without_method e (get_object_member doc (codes "id")) refl
