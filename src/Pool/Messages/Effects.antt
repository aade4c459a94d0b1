-- ===== src/Pool/Messages/Effects.antt =====
-- What a message of the server can be, by its members and the call that it answers, and what each
-- makes the pool do.
use epic_miner.Common.{
  ℕ, ◌≡◌, Bool, true, false, List, [], ◌∷◌, Option, none, some, codes, strcmp_eq,
}
use epic_miner.Json.{Value, Members, as_string, as_uint, as_object, get_object_member}
use epic_miner.Job.{PoolJob}
use epic_miner.Pool.Calls.{CallType, invalid, login, result, keepalive, CallTable, find_call}
use epic_miner.Pool.Fill.{JobParams, filled, rejected, read_params, fill_job}
use epic_miner.Pool.State.{
  Pool, PoolState, Action, Reaction, log_error, on_pool_new_job, on_result_reply,
}
use epic_miner.Pool.Messages.{Handled, login_members, round_trip, malformed, reply, read_reply}

-- A document that is a well-formed reply to call `call_id`.
pub record IsReply (doc : Members) (call_id : ℕ) (value : Option Members) (err : Option (List ℕ))
    : Type 0 where
  pub no_method : get_object_member doc (codes "method") ≡ none
  pub id : Value
  pub has_id : get_object_member doc (codes "id") ≡ some id
  pub id_number : as_uint id ≡ some call_id
  pub content : read_reply doc ≡ reply value err

-- A reply to a call of the given type that is in the table.
pub record Answers (calls : CallTable) (doc : Members) (call_id : ℕ) (call : CallType)
    (value : Option Members) (err : Option (List ℕ)) : Type 0 where
  pub is_reply : IsReply doc call_id value err
  pub known : (find_call calls call_id).0.call ≡ call

-- The name of the server's method.
pub record Calls (doc : Members) (name : List ℕ) : Type 0 where
  pub method : Value
  pub has_method : get_object_member doc (codes "method") ≡ some method
  pub is_text : as_string method ≡ some name

-- Where a message carries the members of a job: as the parameters of the method "job", or in the
-- reply to the login.
pub data JobIn (calls : CallTable) (doc : Members) : Members → Type 0 where
  in_method :
      (name : List ℕ) (params : Value) (param : Members)
      → Calls doc name
      → strcmp_eq name (codes "job") ≡ true
      → get_object_member doc (codes "params") ≡ some params
      → as_object params ≡ some param
      → JobIn calls doc param
  in_login :
      (call_id : ℕ) (value : Members) (id : List ℕ) (job : Value) (param : Members)
      → Answers calls doc call_id login (some value) none
      → login_members value ≡ some (id, job)
      → as_object job ≡ some param
      → JobIn calls doc param

-- Why a message is refused.
pub data Refusal (p : Pool) (doc : Members) : Type 0 where
  bad_method :
      (method : Value)
      → get_object_member doc (codes "method") ≡ some method
      → as_string method ≡ none
      → Refusal p doc
  unsupported :
      (name : List ℕ) → Calls doc name → strcmp_eq name (codes "job") ≡ false → Refusal p doc
  no_params :
      (name : List ℕ)
      → Calls doc name
      → get_object_member doc (codes "params") ≡ none
      → Refusal p doc
  bad_params :
      (name : List ℕ) (params : Value)
      → Calls doc name
      → get_object_member doc (codes "params") ≡ some params
      → as_object params ≡ none
      → Refusal p doc
  missing : (param : Members) → JobIn p.calls doc param → read_params param ≡ none → Refusal p doc
  bad_job :
      (param : Members) (params : JobParams) (err : List ℕ) (job : PoolJob)
      → JobIn p.calls doc param
      → read_params param ≡ some params
      → fill_job params p.my_job ≡ rejected err job
      → Refusal p doc
  no_id :
      get_object_member doc (codes "method") ≡ none
      → get_object_member doc (codes "id") ≡ none
      → Refusal p doc
  bad_id :
      (id : Value)
      → get_object_member doc (codes "method") ≡ none
      → get_object_member doc (codes "id") ≡ some id
      → as_uint id ≡ none
      → Refusal p doc
  bad_reply :
      (err : List ℕ)
      → get_object_member doc (codes "method") ≡ none
      → read_reply doc ≡ malformed err
      → Refusal p doc
  unknown_call :
      (call_id : ℕ) (value : Option Members) (err : Option (List ℕ))
      → Answers p.calls doc call_id invalid value err
      → Refusal p doc
  login_error :
      (call_id : ℕ) (value : Option Members) (err : List ℕ)
      → Answers p.calls doc call_id login value (some err)
      → Refusal p doc
  login_incomplete :
      (call_id : ℕ) (value : Members)
      → Answers p.calls doc call_id login (some value) none
      → login_members value ≡ none
      → Refusal p doc
  keepalive_error :
      (call_id : ℕ) (value : Option Members) (err : List ℕ)
      → Answers p.calls doc call_id keepalive value (some err)
      → Refusal p doc

-- The four things that a handled message can be: refused, a new job, the answer to a result that was
-- sent, or the answer to a keepalive.
pub data Effect (p : Pool) (doc : Members) (ts_now : ℕ) (p' : Pool) (acts : List Action)
    (done : Bool) : Type 0 where
  refused :
      (err : List ℕ)
      → Refusal p doc
      → acts ≡ log_error err ∷ []
      → done ≡ false
      → p'.state ≡ p.state
      → Effect p doc ts_now p' acts done
  gains_job :
      (param : Members) (params : JobParams) (job : PoolJob)
      → JobIn p.calls doc param
      → read_params param ≡ some params
      → fill_job params p.my_job ≡ filled job
      → acts ≡ on_pool_new_job p.pool_id ∷ []
      → done ≡ true
      → p'.state ≡ PoolState.has_job
      → p'.my_job ≡ job
      → Effect p doc ts_now p' acts done
  result_reply :
      (call_id : ℕ) (value : Option Members) (err : Option (List ℕ))
      → Answers p.calls doc call_id result value err
      → acts
        ≡ on_result_reply p.my_job.target err
            (round_trip p call_id ts_now)
            (find_call p.calls call_id).0.miner_id
          ∷ []
      → done ≡ true
      → p'.state ≡ p.state
      → p'.my_job ≡ p.my_job
      → p'.calls ≡ (find_call p.calls call_id).1
      → Effect p doc ts_now p' acts done
  answered :
      (call_id : ℕ) (value : Option Members)
      → Answers p.calls doc call_id keepalive value none
      → acts ≡ []
      → done ≡ true
      → p'.state ≡ p.state
      → p'.my_job ≡ p.my_job
      → p'.calls ≡ (find_call p.calls call_id).1
      → Effect p doc ts_now p' acts done

-- A reply to the login whose "job" is no object: the assertion in GetObjectMember fails.
pub record Stuck (p : Pool) (doc : Members) : Type 0 where
  pub call_id : ℕ
  pub value : Members
  pub id : List ℕ
  pub job : Value
  pub answers : Answers p.calls doc call_id login (some value) none
  pub has_job : login_members value ≡ some (id, job)
  pub no_object : as_object job ≡ none

abbrev pub EffectOf : Pool → Members → ℕ → Reaction × Bool → Type 0
EffectOf p doc ts_now r = Effect p doc ts_now r.0.0 r.0.1 r.1

abbrev pub Handles : Pool → Members → ℕ → Handled → Type 0
Handles p doc ts_now none = Stuck p doc
Handles p doc ts_now (some r) = EffectOf p doc ts_now r
