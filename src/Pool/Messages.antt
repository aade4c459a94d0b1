-- ===== src/Pool/Messages.antt =====
-- pool.cpp: what a message of the server does (process_json_doc and the functions that it calls), and
-- net_on_data_recv. `none` is a failed assertion of rapidjson or a read through nullptr.
pub mod Effects
pub mod Laws
pub mod Answer
pub mod Samples
mod Tests
use epic_miner.Common.{
  ℕ, zero, suc, ◌+◌, ◌-◌, ◌%◌, ◌^◌, Bool, true, false, ◌&&◌, ◌||◌, not, List, [], ◌∷◌, ◌++◌, Option,
  none, some, ltb, ◌==◌, if◌then◌else◌, codes, c_str, strcmp_eq, get_or, take, drop, length,
}
use epic_miner.Common.Int.{ℤ, pos, pos_part, ltb_ℤ, ◌-ℤ◌}
use epic_miner.Json.{Value, obj, Members, as_string, as_uint, as_object, is_null, get_object_member}
use epic_miner.Pool.Calls.{CallType, invalid, login, result, keepalive, FindCallRes, find_call}
use epic_miner.Pool.Fill.{Filled, filled, rejected, JobParams, read_params, fill_job}
use epic_miner.Pool.State.{
  Pool, PoolState, Action, Reaction, on_pool_new_job, on_result_reply, protocol_error, net_on_error,
}

abbrev pub Handled : Type 0
Handled = Option (Reaction × Bool)

unfoldable pub accept_job : Pool → Filled → Reaction × Bool
accept_job p (rejected err job) = protocol_error (record p { my_job = job }) err
accept_job p (filled job) =
    ((record p { my_job = job; state = PoolState.has_job }, on_pool_new_job p.pool_id ∷ []), true)

unfoldable pub process_pool_job : Pool → Members → Reaction × Bool
unfolding accept_job
process_pool_job p param = elim (read_params param) [
  | none ↦ protocol_error p (codes "PARSE error: Job error 1")
  | some params ↦ accept_job p (fill_job params p.my_job)
]

-- The members that the login reply needs.
pub login_members : Members → Option (List ℕ × Value)
login_members value = elim (get_object_member value (codes "id")) [
  | none ↦ none
  | some id ↦ elim (get_object_member value (codes "job")) [
    | none ↦ none
    | some job ↦ elim (as_string id) [ none ↦ none | some text ↦ some (text, job) ]
  ]
]

-- GetObjectMember asserts that `job` is an object, which is not checked before.
unfoldable pub login_job : Pool → Option Members → Handled
unfolding process_pool_job
login_job p none = none
login_job p (some job) = some (process_pool_job p job)

unfoldable pub process_pool_login : Pool → Option Members → Option (List ℕ) → Handled
unfolding login_job login_members
process_pool_login p value (some err_msg) = some (protocol_error p (codes "err_msg"))
process_pool_login p none none = none
process_pool_login p (some value) none = elim (login_members value) [
  | none ↦ some (protocol_error p (codes "PARSE error: Login protocol error 1"))
  | some (id, job) ↦ login_job (record p { pool_miner_id = c_str id }) (as_object job)
]

unfoldable pub process_pool_keepalive : Pool → Option (List ℕ) → Reaction × Bool
process_pool_keepalive p (some err_msg) = protocol_error p (codes "err_msg")
process_pool_keepalive p none = ((p, []), true)

-- The round trip time of a result, from the clock's reading.
pub round_trip : Pool → ℕ → ℕ → ℕ
round_trip p call_id ts_now =
    if p.ping_call_id == call_id && ltb_ℤ p.ping_timestamp (pos ts_now)
    then pos_part (pos ts_now -ℤ p.ping_timestamp)
    else 0

-- The switch on the type of the call that is answered.
unfoldable pub dispatch_reply :
    Pool → FindCallRes → ℕ → Option Members → Option (List ℕ) → ℕ → Handled
unfolding process_pool_login process_pool_keepalive round_trip
dispatch_reply p res call_id value err ts_now = elim res.call [
  | invalid ↦ some (protocol_error p (codes "Invalid call_id"))
  | login ↦ process_pool_login p value err
  | result ↦ some (
    (p, on_result_reply p.my_job.target err (round_trip p call_id ts_now) res.miner_id ∷ []),
    true,
  )
  | keepalive ↦ some (process_pool_keepalive p err)
]

pub data Reply : Type 0 where
  malformed : List ℕ → Reply
  reply : Option Members → Option (List ℕ) → Reply

-- The checks of "error" and "result" in a reply.
pub read_result : Option Value → Reply
read_result none = malformed (codes "PARSE error: Protocol error 7")
read_result (some v) = elim (as_object v) [
  | none ↦ malformed (codes "PARSE error: Protocol error 8")
  | some ms ↦ reply (some ms) none
]

pub read_error : Value → Reply
read_error v = elim (as_object v) [
  | none ↦ malformed (codes "PARSE error: Protocol error 5")
  | some ms ↦ elim (get_object_member ms (codes "message")) [
    | none ↦ malformed (codes "PARSE error: Protocol error 6")
    | some msg ↦ elim (as_string msg) [
      | none ↦ malformed (codes "PARSE error: Protocol error 6")
      | some text ↦ reply none (some (c_str text))
    ]
  ]
]

pub read_reply : Members → Reply
unfolding read_result read_error
read_reply doc = elim (get_object_member doc (codes "error")) [
  | none ↦ read_result (get_object_member doc (codes "result"))
  | some v ↦
      if is_null v then read_result (get_object_member doc (codes "result")) else read_error v
]

unfoldable pub handle_reply : Pool → ℕ → Reply → ℕ → Handled
unfolding dispatch_reply
handle_reply p call_id (malformed err) ts_now = some (protocol_error p err)
handle_reply p call_id (reply value err) ts_now =
    let (res, calls) = find_call p.calls call_id in
    dispatch_reply (record p { calls = calls }) res call_id value err ts_now

unfoldable pub handle_method : Pool → Members → Value → Reaction × Bool
unfolding process_pool_job
handle_method p doc method = elim (as_string method) [
  | none ↦ protocol_error p (codes "PARSE error: Protocol error 1")
  | some name ↦
      if not (strcmp_eq name (codes "job"))
      then protocol_error p (codes "PARSE error: Unsupported server method.")
      else elim (get_object_member doc (codes "params")) [
        | none ↦ protocol_error p (codes "PARSE error: Protocol error 2")
        | some params ↦ elim (as_object params) [
          | none ↦ protocol_error p (codes "PARSE error: Protocol error 2")
          | some ms ↦ process_pool_job p ms
        ]
      ]
]

unfoldable pub handle_id : Pool → Members → Option ℕ → ℕ → Handled
unfolding handle_reply read_reply
handle_id p doc none ts_now = some (protocol_error p (codes "PARSE error: Protocol error 3"))
handle_id p doc (some call_id) ts_now = handle_reply p call_id (read_reply doc) ts_now

unfoldable pub process_json_doc : Pool → Members → ℕ → Handled
unfolding handle_id handle_method
process_json_doc p doc ts_now = elim (get_object_member doc (codes "method")) [
  | some method ↦ some (handle_method p doc method)
  | none ↦ elim (get_object_member doc (codes "id")) [
    | none ↦ handle_id p doc none ts_now
    | some id ↦ handle_id p doc (as_uint id) ts_now
  ]
]
