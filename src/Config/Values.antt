-- ===== src/Config/Values.antt =====
-- jconf_p.hpp: the table of the values that a configuration must have, and the tests of one value.
use epic_miner.Common.{
  ℕ, Bool, true, false, ◌&&◌, List, [], ◌∷◌, none, some, leb, ◌==◌, if◌then◌else◌, codes,
}
use epic_miner.Json.{
  Value, JsonType, null_type, false_type, true_type, object_type, array_type, string_type,
  number_type, as_uint,
}

pub data ConfigEnum : Type 0 where
  pool_list network_timeout network_retry : ConfigEnum

-- The number behind an enumerator.
abbrev pub index_of : ConfigEnum → ℕ
index_of pool_list = 0
index_of network_timeout = 1
index_of network_retry = 2

pub record ConfigVal : Type 0 where
  pub name : ConfigEnum
  pub key : List ℕ
  pub kind : JsonType
  pub constraints : ℕ

abbrev pub flag_none : ℕ
flag_none = 0

abbrev pub flag_unsigned : ℕ
flag_unsigned = 1

abbrev pub flag_u16bit : ℕ
flag_u16bit = 2

unfoldable pub check_constraint_unsigned : Value → Bool
check_constraint_unsigned val = elim (as_uint val) [ none ↦ false | some n ↦ true ]

unfoldable pub check_constraint_u16bit : Value → Bool
check_constraint_u16bit val = elim (as_uint val) [ none ↦ false | some n ↦ leb n 0xffff ]

-- oConfigValues
abbrev pub config_values : List ConfigVal
config_values =
    record { name = pool_list; key = codes "pool_list"; kind = array_type; constraints = flag_none }
    ∷ record {
      name = network_timeout;
      key = codes "network_timeout";
      kind = number_type;
      constraints = flag_unsigned;
    }
    ∷ record {
      name = network_retry;
      key = codes "network_retry";
      kind = number_type;
      constraints = flag_unsigned;
    }
    ∷ []

-- rapidjson's numbers for its types.
abbrev pub type_code : JsonType → ℕ
type_code null_type = 0
type_code false_type = 1
type_code true_type = 2
type_code object_type = 3
type_code array_type = 4
type_code string_type = 5
type_code number_type = 6

abbrev pub same_type : JsonType → JsonType → Bool
same_type a b = type_code a == type_code b

unfoldable pub check_type : JsonType → JsonType → Bool
check_type have want =
    if same_type want have
    then true
    else if same_type want null_type
    then true
    else if same_type want true_type && same_type have false_type
    then true
    else if same_type want false_type && same_type have true_type
    then true
    else false
