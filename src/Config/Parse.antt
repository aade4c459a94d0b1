-- ===== src/Config/Parse.antt =====
-- jconf.cpp: parse_config and the getters. rapidjson's parser, with comments and trailing commas
-- allowed, is a parameter; `none` is a parse error.
pub mod Values
pub mod Laws
pub mod Getters
mod Tests
use epic_miner.Common.{
  ℕ, zero, suc, bit_and, Bool, true, false, ◌&&◌, not, List, [], ◌∷◌, Option, none, some, ◌==◌,
  if◌then◌else◌, length, get_elem?, codes, c_str,
}
use epic_miner.Json.{
  Value, bool, arr, Items, nil, cons, Members, JsonType, string_type, true_type, get_type,
  as_string, as_uint, as_object, get_object_member,
}
use epic_miner.Config.Values.{
  ConfigVal, index_of, flag_unsigned, flag_u16bit, check_constraint_unsigned,
  check_constraint_u16bit, config_values, check_type,
}
use epic_miner.Config.File.{
  Checked, ok, refused, ConfigError, parse_error, not_object, out_of_order, no_pools,
  pool_not_object, missing_value, unexpected_type, not_unsigned, not_u16bit, pool_missing,
  pool_unexpected_type, read_file,
}

abbrev pub size_of : Items → ℕ
size_of nil = 0
size_of (cons v vs) = suc (size_of vs)

abbrev pub as_bool : Value → Option Bool
as_bool (bool b) = some b
as_bool v = none

-- The elements of an array; `none` is the failed assertion of Size and GetArray.
abbrev pub as_array : Value → Option Items
as_array (arr vs) = some vs
as_array v = none

infixl 5 ◌>>=◌
abbrev pub ◌>>=◌ {ℓ κ} : {A : Type ℓ} {B : Type κ} → Checked A → (A → Checked B) → Checked B
ok a >>= f = f a
refused e >>= f = refused e

-- The body of the loop over oConfigValues, from the test of the type on.
pub check_value : ConfigVal → Value → Checked Value
check_value want v =
    if not (check_type (get_type v) want.kind)
    then refused (unexpected_type want.key)
    else if not (bit_and want.constraints flag_unsigned == 0) && not (check_constraint_unsigned v)
    then refused (not_unsigned want.key)
    else if not (bit_and want.constraints flag_u16bit == 0) && not (check_constraint_u16bit v)
    then refused (not_u16bit want.key)
    else ok v

pub find_value : Members → ConfigVal → Checked Value
unfolding check_value
find_value doc want = elim (get_object_member doc want.key) [
  | none ↦ refused (missing_value want.key)
  | some v ↦ check_value want v
]

-- The loop from index i on: the values that configValues is filled with.
pub find_values : Members → ℕ → List ConfigVal → Checked (List Value)
unfolding find_value
find_values doc i [] = ok []
find_values doc i (want ∷ wants) =
    if not (index_of want.name == i)
    then refused out_of_order
    else do v ← find_value doc want; vs ← find_values doc (suc i) wants; ok (v ∷ vs)

-- aPoolValues and poolValTypes
abbrev pub pool_values : List (List ℕ × JsonType)
pool_values =
    (codes "pool_address", string_type)
    ∷ (codes "wallet_address", string_type)
    ∷ (codes "rig_id", string_type)
    ∷ (codes "pool_password", string_type)
    ∷ (codes "use_tls", true_type)
    ∷ (codes "tls_fingerprint", string_type)
    ∷ []

pub check_pool_value : ℕ → Members → List ℕ → JsonType → Checked (Unit {0})
check_pool_value i pool key kind = elim (get_object_member pool key) [
  | none ↦ refused (pool_missing i key)
  | some v ↦
      if not (check_type (get_type v) kind) then refused (pool_unexpected_type i key) else ok tt
]

pub check_pool : ℕ → Members → List (List ℕ × JsonType) → Checked (Unit {0})
unfolding check_pool_value
check_pool i pool [] = ok tt
check_pool i pool ((key, kind) ∷ wants) = do
  _ ← check_pool_value i pool key kind
  check_pool i pool wants

-- The loop over the pools from index i on.
pub check_pools : ℕ → Items → Checked (Unit {0})
unfolding check_pool
check_pools i nil = ok tt
check_pools i (cons v vs) =
    let rest = check_pools (suc i) vs in
    elim (as_object v) [
      | none ↦ refused pool_not_object
      | some pool ↦ check_pool i pool pool_values >>= λ _. rest
    ]

-- The tests after the loop over the values; `none` is a failed assertion of rapidjson.
pub check_pool_list : List Value → Option (Checked (Unit {0}))
unfolding check_pools
check_pool_list values = elim (get_elem? values 0) [
  | none ↦ none
  | some v ↦ elim (as_array v) [
    | none ↦ none
    | some pools ↦ some (if size_of pools == 0 then refused no_pools else check_pools 0 pools)
  ]
]

pub finish_config : List Value → Option (Checked (List Value))
unfolding check_pool_list
finish_config values = elim (check_pool_list values) [
  | none ↦ none
  | some (refused e) ↦ some (refused e)
  | some (ok _) ↦ some (ok values)
]

-- The root, then the values, then the pools: configValues, or what is refused.
pub check_document : Value → Option (Checked (List Value))
unfolding find_values finish_config
check_document doc = elim (as_object doc) [
  | none ↦ some (refused not_object)
  | some root ↦ elim (find_values root 0 config_values) [
    | refused e ↦ some (refused e)
    | ok values ↦ finish_config values
  ]
]

module _ (parse : List ℕ → Option Value) where
  pub parse_config : Option (List ℕ) → Option (Checked (List Value))
  unfolding check_document
  parse_config contents = elim (read_file contents) [
    | refused e ↦ some (refused e)
    | ok file ↦ elim (parse file) [
      | none ↦ some (refused parse_error)
      | some doc ↦ check_document doc
    ]
  ]

-- The getters on configValues; `none` is a failed assertion or a null pointer.
infixl 5 ◌>>?◌
abbrev pub ◌>>?◌ {ℓ κ} : {A : Type ℓ} {B : Type κ} → Option A → (A → Option B) → Option B
none >>? f = none
some a >>? f = f a

pub get_network_timeout : List Value → Option ℕ
get_network_timeout values = get_elem? values 1 >>? as_uint

pub get_network_retry : List Value → Option ℕ
get_network_retry values = get_elem? values 2 >>? as_uint

abbrev pub count_of : Option Items → ℕ
count_of none = 0
count_of (some vs) = size_of vs

pub get_pool_count : List Value → Option ℕ
get_pool_count values = get_elem? values 0 >>? λ v. some (count_of (as_array v))

pub record PoolCfg : Type 0 where
  pub pool_addr : List ℕ
  pub wallet_addr : List ℕ
  pub rig_id : List ℕ
  pub passwd : List ℕ
  pub tls : Bool
  pub tls_fingerprint : List ℕ

abbrev pub item_at : Items → ℕ → Option Value
item_at nil n = none
item_at (cons v vs) zero = some v
item_at (cons v vs) (suc n) = item_at vs n

abbrev c_string : Members → List ℕ → Option (List ℕ)
c_string ms key = get_object_member ms key >>? as_string >>? λ s. some (c_str s)

pub read_pool : Members → Option PoolCfg
read_pool pool = c_string pool (codes "pool_address") >>? λ addr.
    c_string pool (codes "wallet_address") >>? λ wallet. c_string pool (codes "rig_id") >>? λ rig.
    c_string pool (codes "pool_password") >>? λ passwd.
    (get_object_member pool (codes "use_tls") >>? as_bool) >>? λ tls.
    c_string pool (codes "tls_fingerprint") >>? λ fp. some (record {
      pool_addr = addr;
      wallet_addr = wallet;
      rig_id = rig;
      passwd = passwd;
      tls = tls;
      tls_fingerprint = fp;
    })

pub get_pool_config : List Value → ℕ → Option PoolCfg
unfolding read_pool
get_pool_config values n =
    get_elem? values 0 >>? as_array >>? λ vs. item_at vs n >>? as_object >>? read_pool
