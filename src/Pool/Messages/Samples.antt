-- ===== src/Pool/Messages/Samples.antt =====
-- A share that is accepted, for the tests.
use epic_miner.Common.{◌≡◌, refl, true, false, [], ◌∷◌, none, some, codes, bytes_eq, c_str}
use epic_miner.Json.{
  Members, end, member, uint, str, obj, null, get_object_member, as_uint, as_object, as_string,
  is_null,
}
use epic_miner.Pool.Calls.{CallTable, result, register_call, place}
use epic_miner.Pool.Calls.Laws.{IsValid}
use epic_miner.Pool.Messages.{read_reply, read_result, read_error}
use epic_miner.Pool.Messages.Effects.{IsReply}
use epic_miner.Pool.Samples.{sample_calls, free_call}

abbrev pub ok_members : Members
ok_members = member (codes "status") (str (codes "OK")) end

abbrev pub accepted_doc : Members
accepted_doc =
    member (codes "id") (uint 1)
      (member (codes "result") (obj ok_members) (member (codes "error") null end))

pub accepted_doc-IsReply : IsReply accepted_doc 1 (some ok_members) none
unfolding get_object_member as_uint as_object as_string is_null read_reply read_result read_error
    bytes_eq c_str
accepted_doc-IsReply = record {
  no_method = refl;
  id = uint 1;
  has_id = refl;
  id_number = refl;
  content = refl;
}

never {ℓ} : {A : Type ℓ} → false ≡ true → A
never h = absurd (cc (h))

pub sample_calls-IsValid : IsValid sample_calls
sample_calls-IsValid = record {
  eight = refl;
  distinct = (never, (never, (never, (never, (never, (never, (never, (never, tt))))))));
}

-- Below the wrap the new id is that of the counter; here 1.
abbrev pub sent_calls : CallTable
sent_calls = record {
  g_call_id = 2;
  call_map =
      record { call_id = 1; call = result; time_made = 100; miner_id = 1 }
      ∷ free_call
      ∷ free_call
      ∷ free_call
      ∷ free_call
      ∷ free_call
      ∷ free_call
      ∷ free_call
      ∷ [];
}

pub registers : register_call sample_calls result 1 100 ≡ some (1, sent_calls)
unfolding register_call place
registers = refl
