-- ===== src/Config/Parse/Values.antt =====
-- The tests that parse_config makes of one value and of the pools, against tests written out.
use epic_miner.Common.{
  ℕ, suc, ◌≡◌, refl, ap, ap₂, subst, ◌∙◌, Bool, true, false, ◌&&◌, List, [], ◌∷◌, Option, none,
  some, codes, arith, Bool-cases, Option-cases, ◌⊎◌, inl, inr,
}
use epic_miner.Json.{
  Value, null, bool, uint, negative, real, str, arr, obj, Items, nil, cons, Members, JsonType,
  true_type, array_type, string_type, number_type, get_type, as_string, as_uint, as_object,
  get_object_member,
}
use epic_miner.Config.Values.{
  ConfigVal, ConfigEnum, pool_list, flag_none, flag_unsigned, check_constraint_unsigned, check_type,
}
use epic_miner.Config.File.{Checked, ok, refused, ConfigError, missing_value}
use epic_miner.Config.Parse.{
  as_bool, as_array, ◌>>=◌, check_value, find_value, pool_values, check_pool_value, check_pool,
  check_pools,
}

abbrev pub is_some {ℓ} : {A : Type ℓ} → Option A → Bool
is_some none = false
is_some (some a) = true

abbrev pub is_ok {ℓ} : {A : Type ℓ} → Checked A → Bool
is_ok (ok a) = true
is_ok (refused e) = false

-- A member that is there, and passes a test.
abbrev pub member_is : Members → List ℕ → (Value → Bool) → Bool
member_is ms key test = elim (get_object_member ms key) [ none ↦ false | some v ↦ test v ]

abbrev pub is_text : Value → Bool
is_text v = is_some (as_string v)

abbrev pub is_uint : Value → Bool
is_uint v = is_some (as_uint v)

unfoldable pub is_pool : Value → Bool
is_pool v = elim (as_object v) [
  | none ↦ false
  | some pool ↦
      member_is pool (codes "pool_address") is_text
      && (member_is pool (codes "wallet_address") is_text
          && (member_is pool (codes "rig_id") is_text
              && (member_is pool (codes "pool_password") is_text
                  && (member_is pool (codes "use_tls") (λ v. is_some (as_bool v))
                      && member_is pool (codes "tls_fingerprint") is_text))))
]

unfoldable pub all_pools : Items → Bool
unfolding is_pool
all_pools nil = true
all_pools (cons v vs) = is_pool v && all_pools vs

unfoldable pub is_pool_list : Value → Bool
unfolding all_pools
is_pool_list v = elim (as_array v) [
  | none ↦ false
  | some nil ↦ false
  | some (cons p ps) ↦ all_pools (cons p ps)
]

-- What a configuration must hold.
unfoldable pub is_config : Value → Bool
unfolding is_pool_list
is_config doc = elim (as_object doc) [
  | none ↦ false
  | some root ↦
      member_is root (codes "pool_list") is_pool_list
      && (member_is root (codes "network_timeout") is_uint
          && member_is root (codes "network_retry") is_uint)
]

-- The types that are asked for.
type_text : (v : Value) → check_type (get_type v) string_type ≡ is_text v
unfolding check_type get_type as_string
type_text null = refl
type_text (bool true) = refl
type_text (bool false) = refl
type_text (uint n) = refl
type_text (negative n) = refl
type_text real = refl
type_text (str s) = refl
type_text (arr vs) = refl
type_text (obj ms) = refl

type_bool : (v : Value) → check_type (get_type v) true_type ≡ is_some (as_bool v)
unfolding check_type get_type
type_bool null = refl
type_bool (bool true) = refl
type_bool (bool false) = refl
type_bool (uint n) = refl
type_bool (negative n) = refl
type_bool real = refl
type_bool (str s) = refl
type_bool (arr vs) = refl
type_bool (obj ms) = refl

abbrev pub array_val : ConfigVal
array_val = record {
  name = pool_list;
  key = codes "pool_list";
  kind = array_type;
  constraints = flag_none;
}

abbrev pub number_val : ConfigEnum → List ℕ → ConfigVal
number_val name key = record {
  name = name;
  key = key;
  kind = number_type;
  constraints = flag_unsigned;
}

-- A value that passes is kept, and it passes exactly when it is an array, or a uint.
abbrev pub Kept : Value → Bool → Checked Value → Type 0
Kept v good c = (is_ok c ≡ good) × (good ≡ true → c ≡ ok v)

pub check_array : (v : Value) → Kept v (is_some (as_array v)) (check_value array_val v)
unfolding check_type get_type check_value
check_array null = (refl, λ h. ground (arith, h))
check_array (bool true) = (refl, λ h. ground (arith, h))
check_array (bool false) = (refl, λ h. ground (arith, h))
check_array (uint n) = (refl, λ h. ground (arith, h))
check_array (negative n) = (refl, λ h. ground (arith, h))
check_array real = (refl, λ h. ground (arith, h))
check_array (str s) = (refl, λ h. ground (arith, h))
check_array (arr vs) = (refl, λ h. ground (arith, h))
check_array (obj ms) = (refl, λ h. ground (arith, h))

pub check_number :
    (v : Value) (name : ConfigEnum) (key : List ℕ)
    → Kept v (is_uint v) (check_value (number_val name key) v)
unfolding check_type get_type check_value check_constraint_unsigned as_uint
check_number null name key = (ground arith, λ h. ground (arith, h))
check_number (bool true) name key = (ground arith, λ h. ground (arith, h))
check_number (bool false) name key = (ground arith, λ h. ground (arith, h))
check_number (uint n) name key = (ground arith, λ h. ground (arith, h))
check_number (negative n) name key = (ground arith, λ h. ground (arith, h))
check_number real name key = (ground arith, λ h. ground (arith, h))
check_number (str s) name key = (ground arith, λ h. ground (arith, h))
check_number (arr vs) name key = (ground arith, λ h. ground (arith, h))
check_number (obj ms) name key = (ground arith, λ h. ground (arith, h))

-- A value of the table is found, or refused.
abbrev Refused : Members → ConfigVal → (Value → Bool) → Type 0
Refused root want test =
    (e : ConfigError) × (find_value root want ≡ refused e) × (member_is root want.key test ≡ false)

abbrev Found : Members → ConfigVal → (Value → Bool) → Type 0
Found root want test =
    (v : Value) × (find_value root want ≡ ok v)
    × (test v ≡ true)
    × (get_object_member root want.key ≡ some v)

refused_of : {A : Type 0} (c : Checked A) → is_ok c ≡ false → (e : ConfigError) × (c ≡ refused e)
refused_of (ok a) h = absurd (cc (h))
refused_of (refused e) h = (e, refl)

find_value_lem :
    (root : Members) (want : ConfigVal) (test : Value → Bool)
    → ((v : Value) → Kept v (test v) (check_value want v))
    → Refused root want test ⊎ Found root want test
unfolding find_value
find_value_lem root want test h = elim (Option-cases (get_object_member root want.key)) [
  | inl gone ↦ inl (missing_value want.key, rw (find_value, gone) refl, rw (member_is, gone) refl)
  | inr (v, here) ↦
      let (same, kept) = h v in
      elim (Bool-cases (test v)) [
        | inl good ↦ inr (v, rw (find_value, here) (kept good), good, here)
        | inr bad ↦
            let (e, why) = refused_of (check_value want v) (same ∙ bad) in
            inl (e, rw (find_value, here) why, rw (member_is, here) bad)
      ]
]

module _ (root : Members) (want : ConfigVal) (test : Value → Bool)
    (h : (v : Value) → Kept v (test v) (check_value want v)) where
  pub found_value :
      (v : Value)
      → find_value root want ≡ ok v
      → (get_object_member root want.key ≡ some v) × (test v ≡ true)
  found_value v e = elim (find_value_lem root want test h) [
    | inl (why, run, bad) ↦ absurd (cc (e, run))
    | inr (w, run, good, here) ↦
        let same : w ≡ v = cc (e, run) in
        subst (λ (x : Value). (get_object_member root want.key ≡ some x) × (test x ≡ true)) same
          (here, good)
  ]

  pub refused_value : is_ok (find_value root want) ≡ false → member_is root want.key test ≡ false
  refused_value e = elim (find_value_lem root want test h) [
    | inl (why, run, bad) ↦ bad
    | inr (w, run, good, here) ↦ absurd (cc (ap is_ok run, e))
  ]

is_ok_then : (m n : Checked (Unit {0})) → is_ok (m >>= λ _. n) ≡ (is_ok m && is_ok n)
is_ok_then (ok a) n = refl
is_ok_then (refused e) n = refl

check_pool_value_lem :
    (i : ℕ) (pool : Members) (key : List ℕ) (kind : JsonType) (test : Value → Bool)
    → ((v : Value) → check_type (get_type v) kind ≡ test v)
    → is_ok (check_pool_value i pool key kind) ≡ member_is pool key test
unfolding check_pool_value
check_pool_value_lem i pool key kind test h = elim (Option-cases (get_object_member pool key)) [
  | inl gone ↦ rw (check_pool_value, member_is, gone) refl
  | inr (v, here) ↦ rw (check_pool_value, member_is, here) (rw (h v) (ground arith))
]

check_pool-cons :
    (i : ℕ) (pool : Members) (key : List ℕ) (kind : JsonType) (wants : List (List ℕ × JsonType))
    → is_ok (check_pool i pool ((key, kind) ∷ wants))
      ≡ (is_ok (check_pool_value i pool key kind) && is_ok (check_pool i pool wants))
unfolding check_pool
check_pool-cons i pool key kind wants =
    is_ok_then (check_pool_value i pool key kind) (check_pool i pool wants)

check_pool_nil : (i : ℕ) (pool : Members) → is_ok (check_pool i pool []) ≡ true
unfolding check_pool
check_pool_nil i pool = refl

pub and_true : (b : Bool) → (b && true) ≡ b
and_true true = refl
and_true false = refl

pub and_false : (b : Bool) → (b && false) ≡ false
and_false true = refl
and_false false = refl

check_pool_lem :
    (i : ℕ) (v : Value) (pool : Members)
    → as_object v ≡ some pool
    → is_ok (check_pool i pool pool_values) ≡ is_pool v
unfolding is_pool
check_pool_lem i v pool e =
    let text : (key : List ℕ)
        → is_ok (check_pool_value i pool key string_type) ≡ member_is pool key is_text =
      λ key. check_pool_value_lem i pool key string_type is_text type_text in
    let flag =
      check_pool_value_lem i pool (codes "use_tls") true_type (λ v. is_some (as_bool v))
        type_bool in
    rw (is_pool, e)
      (simp
        (
          check_pool-cons,
          check_pool_nil,
          and_true,
          text (codes "pool_address"),
          text (codes "wallet_address"),
          text (codes "rig_id"),
          text (codes "pool_password"),
          flag,
          text (codes "tls_fingerprint"),
        )
        refl)

pub check_pools_lem : (i : ℕ) (vs : Items) → is_ok (check_pools i vs) ≡ all_pools vs
unfolding check_pools all_pools is_pool
check_pools_lem i nil = refl
check_pools_lem i (cons v vs) = elim (Option-cases (as_object v)) [
  | inl other ↦ rw (check_pools, all_pools, is_pool, other) refl
  | inr (pool, e) ↦
      let here : is_ok (check_pool i pool pool_values) ≡ is_pool v = check_pool_lem i v pool e in
      let both : is_ok (check_pools i (cons v vs))
          ≡ (is_ok (check_pool i pool pool_values) && is_ok (check_pools (suc i) vs)) =
        rw (check_pools, e) (is_ok_then (check_pool i pool pool_values) (check_pools (suc i) vs)) in
      both ∙ ap₂ (λ a b. a && b) here (check_pools_lem (suc i) vs)
]
