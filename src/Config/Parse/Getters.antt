-- ===== src/Config/Parse/Getters.antt =====
-- The getters of jconf on a configuration that parse_config has accepted.
use epic_miner.Common.{
  ℕ, zero, suc, ◌^◌, ◌<◌, ◌≡◌, refl, sym, subst, ◌∙◌, Bool, true, false, ◌&&◌, List, [], ◌∷◌,
  Option, none, some, codes, c_str, arith, Option-cases, inl, inr,
}
use epic_miner.Json.{
  Value, Items, nil, cons, Members, as_string, as_uint, as_object, get_object_member,
}
use epic_miner.Config.File.{ok}
use epic_miner.Config.Parse.{
  size_of, as_bool, as_array, item_at, parse_config, PoolCfg, read_pool, get_pool_config,
  get_pool_count, get_network_timeout, get_network_retry,
}
use epic_miner.Config.Parse.Values.{
  is_some, member_is, is_text, is_uint, is_pool, all_pools, is_pool_list,
}
use epic_miner.Config.Parse.Laws.{parse_config_lem}

and_both : (a b : Bool) → (a && b) ≡ true → (a ≡ true) × (b ≡ true)
and_both true b e = (refl, e)
and_both false b e = absurd (cc (e))

some_of {ℓ} : {A : Type ℓ} (o : Option A) → is_some o ≡ true → (a : A) × (o ≡ some a)
some_of none e = absurd (cc (e))
some_of (some a) e = (a, refl)

member_at :
    (ms : Members) (key : List ℕ) (test : Value → Bool)
    → member_is ms key test ≡ true
    → (v : Value) × (get_object_member ms key ≡ some v) × (test v ≡ true)
member_at ms key test e = elim (Option-cases (get_object_member ms key)) [
  | inl gone ↦
      (let bad : member_is ms key test ≡ false = rw (member_is, gone) refl in absurd (cc (e, bad)))
  | inr (v, here) ↦ (v, here, rw (member_is, here) at e)
]

text_at :
    (ms : Members) (key : List ℕ)
    → member_is ms key is_text ≡ true
    → (v : Value) × (s : List ℕ) × (get_object_member ms key ≡ some v) × (as_string v ≡ some s)
text_at ms key e =
    let (v, here, good) = member_at ms key is_text e in
    let (s, is) = some_of (as_string v) good in (v, s, here, is)

read_pool_lem :
    (v : Value)
    → is_pool v ≡ true
    → (pool : Members) × (cfg : PoolCfg) × (as_object v ≡ some pool) × (read_pool pool ≡ some cfg)
unfolding is_pool read_pool
read_pool_lem v e = elim (Option-cases (as_object v)) [
  | inl other ↦ (let bad : is_pool v ≡ false = rw (is_pool, other) refl in absurd (cc (e, bad)))
  | inr (pool, is) ↦
      let all = rw (is_pool, is) at e in
      let (a, all1) = and_both _ _ all in
      let (b, all2) = and_both _ _ all1 in
      let (c, all3) = and_both _ _ all2 in
      let (d, all4) = and_both _ _ all3 in
      let (f, g) = and_both _ _ all4 in
      let (v1, s1, h1, t1) = text_at pool (codes "pool_address") a in
      let (v2, s2, h2, t2) = text_at pool (codes "wallet_address") b in
      let (v3, s3, h3, t3) = text_at pool (codes "rig_id") c in
      let (v4, s4, h4, t4) = text_at pool (codes "pool_password") d in
      let (v5, h5, good) = member_at pool (codes "use_tls") (λ v. is_some (as_bool v)) f in
      let (flag, t5) = some_of (as_bool v5) good in
      let (v6, s6, h6, t6) = text_at pool (codes "tls_fingerprint") g in
      (
        pool,
        record {
          pool_addr = c_str s1;
          wallet_addr = c_str s2;
          rig_id = c_str s3;
          passwd = c_str s4;
          tls = flag;
          tls_fingerprint = c_str s6;
        },
        is,
        rw (read_pool, h1)
            (rw (read_pool, t1)
              (rw (h2) (
                rw (t2) (
                  rw (h3)
                    (rw (t3) (rw (h4) (rw (t4) (rw (h5) (rw (t5) (rw (h6) (rw (t6) refl))))))))))),
      )
]

item_at_lem :
    (vs : Items) (n : ℕ)
    → all_pools vs ≡ true
    → n < size_of vs
    → (v : Value) × (item_at vs n ≡ some v) × (is_pool v ≡ true)
unfolding all_pools
item_at_lem nil n good lt = absurd (omega arith)
item_at_lem (cons v vs) zero good lt = (v, refl, (and_both (is_pool v) (all_pools vs) good).0)
item_at_lem (cons v vs) (suc n) good lt =
    item_at_lem vs n (and_both (is_pool v) (all_pools vs) good).1 (omega arith)

all_pools_of :
    (v : Value) (vs : Items)
    → as_array v ≡ some vs
    → is_pool_list v ≡ true
    → (0 < size_of vs) × (all_pools vs ≡ true)
unfolding is_pool_list
all_pools_of v nil a e =
    (let bad : is_pool_list v ≡ false = rw (is_pool_list, a) refl in absurd (cc (e, bad)))
all_pools_of v (cons p ps) a e =
    let same : is_pool_list v ≡ all_pools (cons p ps) = rw (is_pool_list, a) refl in
    (omega arith, sym same ∙ e)

uint_lt : (v : Value) (n : ℕ) → as_uint v ≡ some n → n < 2 ^ 32
unfolding as_uint
uint_lt v n e = ground arith

-- Every getter gives a value: there is at least one pool, every pool below the count has a full
-- configuration, and the two network settings are 32-bit numbers.
abbrev pub IsUsable : List Value → Type 0
IsUsable values =
    ((count : ℕ) × (get_pool_count values ≡ some count)
      × (0 < count)
      × ((n : ℕ) → n < count → (cfg : PoolCfg) × (get_pool_config values n ≡ some cfg)))
    × ((t : ℕ) × (get_network_timeout values ≡ some t) × (t < 2 ^ 32))
    × ((r : ℕ) × (get_network_retry values ≡ some r) × (r < 2 ^ 32))

values-IsUsable :
    (list timeout retry : Value) (vs : Items)
    → as_array list ≡ some vs
    → is_pool_list list ≡ true
    → is_uint timeout ≡ true
    → is_uint retry ≡ true
    → IsUsable (list ∷ timeout ∷ retry ∷ [])
unfolding get_pool_count get_pool_config get_network_timeout get_network_retry
values-IsUsable list timeout retry vs array pools t_number r_number =
    let (at_least_one, good) = all_pools_of list vs array pools in
    let (t, at) = some_of (as_uint timeout) t_number in
    let (r, ar) = some_of (as_uint retry) r_number in
    (
      (
        size_of vs,
        rw (get_pool_count, array) refl,
        at_least_one,
        λ n lt.
            let (v, here, pool_good) = item_at_lem vs n good lt in
            let (pool, cfg, is_object, read) = read_pool_lem v pool_good in
            (cfg, rw (get_pool_config, array) (rw (here) (rw (is_object) read))),
      ),
      (t, at, uint_lt timeout t at),
      (r, ar, uint_lt retry r ar),
    )

-- Of a configuration that parse_config has accepted every getter gives a value, without a failed
-- assertion or a null pointer: there is at least one pool, every pool below the count has a full
-- configuration, and the two network settings are 32-bit numbers.
pub parse_config-IsUsable :
    (parse : List ℕ → Option Value) (contents : Option (List ℕ)) (values : List Value)
    → parse_config parse contents ≡ some (ok values)
    → IsUsable values
parse_config-IsUsable parse contents values run =
    let (result, e, same, checked) = parse_config_lem parse contents in
    let is : result ≡ ok values = cc (e, run) in
    let c = checked values is in
    subst IsUsable (sym c.is_values) (
      values-IsUsable c.list c.timeout c.retry c.pools c.is_array c.are_pools c.timeout_number
        c.retry_number)
