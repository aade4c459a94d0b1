-- ===== src/Config/Parse/Tests.antt =====
-- A configuration with one pool, under a parser that knows one text.
use epic_miner.Common.{ℕ, ◌≡◌, refl, true, false, List, [], ◌∷◌, Option, some, codes, bytes_eq}
use epic_miner.Json.{Value, bool, uint, str, arr, obj, nil, cons, Members, end, member}
use epic_miner.Json
use epic_miner.Config.Values.{check_type, check_constraint_unsigned, check_constraint_u16bit}
use epic_miner.Config.File.{ok, read_file, blank_bom}
use epic_miner.Config.Parse.{
  parse_config, check_document, find_values, find_value, check_value, finish_config,
  check_pool_list, check_pools, check_pool, check_pool_value,
}
use epic_miner.Config.Parse.Laws.{Decides, member_of_file, acceptable, parse_config_lem}
use epic_miner.Config.Parse.Getters.{IsUsable, parse_config-IsUsable}

abbrev pool : Members
pool = member (codes "pool_address") (str (codes "pool:3333")) (
    member (codes "wallet_address") (str (codes "user")) (
      member (codes "rig_id") (str []) (
        member (codes "pool_password") (str (codes "x"))
          (member (codes "use_tls") (bool false) (member (codes "tls_fingerprint") (str []) end)))))

abbrev root : Value
root = obj (
    member (codes "network_timeout") (uint 10) (
      member (codes "network_retry") (uint 30)
        (member (codes "pool_list") (arr (cons (obj pool) nil)) end)))

-- The text of a configuration is not looked at: all texts parse as this one.
abbrev parse_any : List ℕ → Option Value
parse_any text = some root

abbrev values : List Value
values = arr (cons (obj pool) nil) ∷ uint 10 ∷ uint 30 ∷ []

accepted_run : parse_config parse_any (some (codes "pools:")) ≡ some (ok values)
unfolding parse_config read_file blank_bom check_document find_values find_value check_value
    finish_config check_pool_list check_pools check_pool check_pool_value check_type
    check_constraint_unsigned Json.get_type Json.as_object Json.as_uint Json.get_object_member
    bytes_eq
accepted_run = refl

u16_runs : check_constraint_u16bit (uint 65535) ≡ true
unfolding check_constraint_u16bit Json.as_uint
u16_runs = refl

-- A byte order mark in front.
bom_runs : read_file (some (0xef ∷ 0xbb ∷ 0xbf ∷ codes "\"a\":1")) ≡ ok (codes "{   \"a\":1}")
unfolding read_file blank_bom
bom_runs = refl

parse_config_lem_example :
    Decides
      (member_of_file parse_any (some (codes "pools:")))
      (parse_config parse_any (some (codes "pools:")))
      (acceptable parse_any (some (codes "pools:")))
parse_config_lem_example = parse_config_lem parse_any (some (codes "pools:"))

parse_config-IsUsable_example : IsUsable values
parse_config-IsUsable_example =
    parse_config-IsUsable parse_any (some (codes "pools:")) values accepted_run
