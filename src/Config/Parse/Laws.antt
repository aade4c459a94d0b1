-- ===== src/Config/Parse/Laws.antt =====
-- Which configurations parse_config accepts, and what the getters find in them.
use epic_miner.Common.{
  ℕ, ◌+◌, ◌≡◌, refl, sym, ap, subst, ◌∙◌, Bool, true, false, ◌&&◌, List, [], ◌∷◌, ◌++◌, Option,
  none, some, ltb, leb, length, codes, arith, Bool-cases, Option-cases, inl, inr, length-append,
}
use epic_miner.Json.{Value, Items, nil, cons, Members, as_object, get_object_member}
use epic_miner.Config.Values.{ConfigVal, network_timeout, network_retry, config_values}
use epic_miner.Config.File.{
  Checked, ok, refused, ConfigError, too_short, cannot_read, parse_error, not_object, no_pools,
  blank_bom, read_file,
}
use epic_miner.Config.Parse.{
  as_array, ◌>>=◌, find_value, find_values, check_pools, check_pool_list, finish_config,
  check_document, parse_config,
}
use epic_miner.Config.Parse.Values.{
  is_some, is_ok, member_is, is_uint, is_pool_list, is_config, array_val, number_val, check_array,
  check_number, found_value, refused_value, check_pools_lem, and_true, and_false,
}

-- What configValues holds after parse_config has accepted, where `at` gives the members of the
-- document.
pub record IsChecked (at : List ℕ → Option Value) (values : List Value) : Type 0 where
  pub pools : Items
  pub timeout : Value
  pub retry : Value
  pub list : Value
  pub is_values : values ≡ list ∷ timeout ∷ retry ∷ []
  pub list_at : at (codes "pool_list") ≡ some list
  pub timeout_at : at (codes "network_timeout") ≡ some timeout
  pub retry_at : at (codes "network_retry") ≡ some retry
  pub is_array : as_array list ≡ some pools
  pub are_pools : is_pool_list list ≡ true
  pub timeout_number : is_uint timeout ≡ true
  pub retry_number : is_uint retry ≡ true

-- The run of parse_config on a document ends in a result that agrees with a test.
abbrev pub Decides : (List ℕ → Option Value) → Option (Checked (List Value)) → Bool → Type 0
Decides at o good =
    (r : Checked (List Value)) × (o ≡ some r)
    × (is_ok r ≡ good)
    × ((values : List Value) → r ≡ ok values → IsChecked at values)

refuses :
    {at : List ℕ → Option Value} (e : ConfigError) (good : Bool)
    → good ≡ false
    → Decides at (some (refused e)) good
refuses e good bad = (refused e, refl, sym bad, λ values h. absurd (cc (h)))

pool_list_lem :
    (at : List ℕ → Option Value) (v t r : Value) (vs : Items) (c : Checked (Unit {0}))
    → at (codes "pool_list") ≡ some v
    → at (codes "network_timeout") ≡ some t
    → at (codes "network_retry") ≡ some r
    → as_array v ≡ some vs
    → is_uint t ≡ true
    → is_uint r ≡ true
    → check_pool_list (v ∷ t ∷ r ∷ []) ≡ some c
    → is_ok c ≡ is_pool_list v
    → Decides at (finish_config (v ∷ t ∷ r ∷ [])) (is_pool_list v)
unfolding finish_config
pool_list_lem at v t r vs (refused e) p q u a it ir run same =
    rw (finish_config, run) (refuses e (is_pool_list v) (sym same))
pool_list_lem at v t r vs (ok _) p q u a it ir run same =
    let values = v ∷ t ∷ r ∷ [] in
    let checked : IsChecked at values = record {
      pools = vs;
      timeout = t;
      retry = r;
      list = v;
      is_values = refl;
      list_at = p;
      timeout_at = q;
      retry_at = u;
      is_array = a;
      are_pools = sym same;
      timeout_number = it;
      retry_number = ir;
    } in
    (
      ok values,
      rw (finish_config, run) refl,
      same,
      λ vals h. subst (λ x. IsChecked at x) (ok_inj values vals h) checked,
    )
  where
    ok_inj : (x y : List Value) → ◌≡◌ {A = Checked (List Value)} (ok x) (ok y) → x ≡ y
    ok_inj x y h = cc (h)

check_pool_list_lem :
    (v t r : Value) (vs : Items)
    → as_array v ≡ some vs
    → (c : Checked (Unit {0})) × (check_pool_list (v ∷ t ∷ r ∷ []) ≡ some c)
      × (is_ok c ≡ is_pool_list v)
unfolding check_pool_list is_pool_list
check_pool_list_lem v t r nil a =
    (refused no_pools, rw (check_pool_list, a) refl, rw (is_pool_list, a) refl)
check_pool_list_lem v t r (cons p ps) a = (
  check_pools 0 (cons p ps),
  rw (check_pool_list, a) (ground arith),
  rw (is_pool_list, a) (check_pools_lem 0 (cons p ps)),
)

abbrev three : Checked Value → Checked Value → Checked Value → Checked (List Value)
three a b c = a >>= λ v. b >>= λ t. c >>= λ r. ok (v ∷ t ∷ r ∷ [])

three_assoc :
    (a b c : Checked Value)
    → (a >>= λ v. (b >>= λ t. (c >>= λ r. ok (r ∷ [])) >>= λ vs. ok (t ∷ vs)) >>= λ vs. ok (v ∷ vs))
      ≡ three a b c
three_assoc (refused e) b c = refl
three_assoc (ok v) (refused e) c = refl
three_assoc (ok v) (ok t) (refused e) = refl
three_assoc (ok v) (ok t) (ok r) = refl

abbrev timeout_val : ConfigVal
timeout_val = number_val network_timeout (codes "network_timeout")

abbrev retry_val : ConfigVal
retry_val = number_val network_retry (codes "network_retry")

find_values_lem :
    (root : Members)
    → find_values root 0 config_values
      ≡ three (find_value root array_val) (find_value root timeout_val) (find_value root retry_val)
unfolding find_values find_value
find_values_lem root =
    three_assoc (find_value root array_val) (find_value root timeout_val)
      (find_value root retry_val)

abbrev checks : Checked (List Value) → Option (Checked (List Value))
checks (refused e) = some (refused e)
checks (ok values) = finish_config values

-- The three values, given how each search ends.
values_lem :
    (at : List ℕ → Option Value) (a b c : Checked Value) (ga gb gc : Bool)
    → ((v : Value) → a ≡ ok v → at (codes "pool_list") ≡ some v)
    → ((v : Value) → b ≡ ok v → at (codes "network_timeout") ≡ some v)
    → ((v : Value) → c ≡ ok v → at (codes "network_retry") ≡ some v)
    → ((v : Value) → a ≡ ok v → (ga ≡ is_pool_list v) × ((vs : Items) × (as_array v ≡ some vs)))
    → ((v : Value) → b ≡ ok v → (gb ≡ true) × (is_uint v ≡ true))
    → ((v : Value) → c ≡ ok v → (gc ≡ true) × (is_uint v ≡ true))
    → (is_ok a ≡ false → ga ≡ false)
    → (is_ok b ≡ false → gb ≡ false)
    → (is_ok c ≡ false → gc ≡ false)
    → Decides at (checks (three a b c)) (ga && (gb && gc))
values_lem at (refused e) b c ga gb gc ha hb hc fa fb fc na nb nc =
    refuses e (ga && (gb && gc)) (rw (na refl) refl)
values_lem at (ok v) (refused e) c ga gb gc ha hb hc fa fb fc na nb nc =
    refuses e (ga && (gb && gc)) (rw (nb refl) (and_false ga))
values_lem at (ok v) (ok t) (refused e) ga gb gc ha hb hc fa fb fc na nb nc =
    refuses e (ga && (gb && gc)) (rw (nc refl, and_false gb) (and_false ga))
values_lem at (ok v) (ok t) (ok r) ga gb gc ha hb hc fa fb fc na nb nc =
    let (same, (vs, array)) = fa v refl in
    let (b_ok, bt) = fb t refl in
    let (c_ok, ct) = fc r refl in
    let (ch, run, agrees) = check_pool_list_lem v t r vs array in
    subst (λ g. Decides at (finish_config (v ∷ t ∷ r ∷ [])) g)
      (sym (rw (b_ok, c_ok) (and_true ga) ∙ same))
      (pool_list_lem at v t r vs ch (ha v refl) (hb t refl) (hc r refl) array bt ct run agrees)

not_array : (v : Value) → is_some (as_array v) ≡ false → is_pool_list v ≡ false
unfolding is_pool_list
not_array v e = elim (Option-cases (as_array v)) [
  | inl other ↦ rw (is_pool_list, other) refl
  | inr (vs, array) ↦ absurd (cc (ap is_some array, e))
]

member_is_mono :
    (root : Members) (key : List ℕ) (p q : Value → Bool)
    → ((v : Value) → p v ≡ false → q v ≡ false)
    → member_is root key p ≡ false
    → member_is root key q ≡ false
member_is_mono root key p q h e = elim (Option-cases (get_object_member root key)) [
  | inl gone ↦ rw (member_is, gone) refl
  | inr (v, here) ↦ rw (member_is, here) (h v (rw (member_is, here) at e))
]

member_of :
    (root : Members) (key : List ℕ) (test : Value → Bool) (v : Value)
    → get_object_member root key ≡ some v
    → member_is root key test ≡ test v
member_of root key test v here = rw (member_is, here) refl

array_of : (v : Value) → is_some (as_array v) ≡ true → (vs : Items) × (as_array v ≡ some vs)
array_of v e = elim (Option-cases (as_array v)) [
  | inl other ↦ absurd (cc (ap is_some other, e))
  | inr found ↦ found
]

-- The members of a document, none if it is no object.
abbrev pub members_of : Value → List ℕ → Option Value
members_of doc key = elim (as_object doc) [ none ↦ none | some root ↦ get_object_member root key ]

check_document_lem : (doc : Value) → Decides (members_of doc) (check_document doc) (is_config doc)
unfolding check_document is_config
check_document_lem doc = elim (Option-cases (as_object doc)) [
  | inl other ↦
      rw (check_document, other) (refuses not_object (is_config doc) (rw (is_config, other) refl))
  | inr (root, e) ↦
      let is_array : Value → Bool = λ v. is_some (as_array v) in
      let number : Value → Bool = λ v. is_uint v in
      let pools = found_value root array_val is_array check_array in
      let no_list = refused_value root array_val is_array check_array in
      let n1 = λ (v : Value). check_number v network_timeout (codes "network_timeout") in
      let n2 = λ (v : Value). check_number v network_retry (codes "network_retry") in
      rw (check_document, is_config, e)
        (rw (find_values_lem root) (
          values_lem (members_of doc) (find_value root array_val) (find_value root timeout_val)
            (find_value root retry_val) (member_is root (codes "pool_list") is_pool_list)
            (member_is root (codes "network_timeout") is_uint)
            (member_is root (codes "network_retry") is_uint)
            (λ v run. members_at root e (codes "pool_list") ∙ (pools v run).0)
            (λ v run.
              members_at root e (codes "network_timeout")
              ∙ (found_value root timeout_val number n1 v run).0)
            (λ v run.
              members_at root e (codes "network_retry")
              ∙ (found_value root retry_val number n2 v run).0)
            (λ v run.
              let (here, array) = pools v run in
              (member_of root (codes "pool_list") is_pool_list v here, array_of v array))
            (λ v run.
              let (here, good) = found_value root timeout_val number n1 v run in
              (member_of root (codes "network_timeout") is_uint v here ∙ good, good))
            (λ v run.
              let (here, good) = found_value root retry_val number n2 v run in
              (member_of root (codes "network_retry") is_uint v here ∙ good, good))
            (λ h.
              member_is_mono root (codes "pool_list") is_array is_pool_list not_array (no_list h))
            (refused_value root timeout_val number n1) (refused_value root retry_val number n2)))
]
  where
    members_at :
        (root : Members)
        → as_object doc ≡ some root
        → (key : List ℕ) → members_of doc key ≡ get_object_member root key
    members_at root e key = rw (members_of, e) refl

-- What the file must hold: at least six bytes, which between braces (a byte order mark blanked)
-- parse as a configuration.
pub acceptable : (List ℕ → Option Value) → Option (List ℕ) → Bool
acceptable parse none = false
acceptable parse (some contents) =
    leb 6 (length contents) && elim (parse (blank_bom (b'{' ∷ contents ++ b'}' ∷ []))) [
      | none ↦ false
      | some doc ↦ is_config doc
    ]

-- What the file's document has under a key.
pub member_of_file : (List ℕ → Option Value) → Option (List ℕ) → List ℕ → Option Value
member_of_file parse none key = none
member_of_file parse (some contents) key = elim (parse (blank_bom (b'{' ∷ contents ++ b'}' ∷ []))) [
  | none ↦ none
  | some doc ↦ members_of doc key
]

length-braces : (contents : List ℕ) → length (b'{' ∷ contents ++ b'}' ∷ []) ≡ length contents + 2
length-braces contents = omega (arith, length-append contents (b'}' ∷ []))

by_parse :
    (parse : List ℕ → Option Value) (text : List ℕ)
    → Decides
        (λ key. elim (parse text) [ none ↦ none | some doc ↦ members_of doc key ])
        (elim (parse text) [ none ↦ some (refused parse_error) | some doc ↦ check_document doc ])
        (elim (parse text) [ none ↦ false | some doc ↦ is_config doc ])
by_parse parse text = elim (Option-cases (parse text)) [
  | inl bad ↦ rw (bad) (refuses parse_error false refl)
  | inr (doc, good) ↦ rw (good) (check_document_lem doc)
]

-- parse_config never fails an assertion, and accepts exactly the files with an acceptable
-- configuration: a pool_list that is an array of at least one pool, each an object with five texts
-- and the flag use_tls, and network_timeout and network_retry as unsigned numbers. Of such a
-- file it keeps the document's pool_list, network_timeout and network_retry, in this order.
pub parse_config_lem :
    (parse : List ℕ → Option Value) (contents : Option (List ℕ))
    → Decides
        (member_of_file parse contents)
        (parse_config parse contents)
        (acceptable parse contents)
unfolding parse_config read_file acceptable member_of_file
parse_config_lem parse none = refuses cannot_read false refl
parse_config_lem parse (some contents) =
    let size = length-braces contents in
    elim (Bool-cases (leb 6 (length contents))) [
      | inr short ↦
          let small : ltb (length (b'{' ∷ contents ++ b'}' ∷ [])) 8 ≡ true =
            ground (arith, size, short) in
          rw (parse_config, read_file, small)
            (refuses too_short (acceptable parse (some contents)) (rw (acceptable, short) refl))
      | inl long ↦
          let big : ltb (length (b'{' ∷ contents ++ b'}' ∷ [])) 8 ≡ false =
            ground (arith, size, long) in
          rw (parse_config, read_file, big)
            (rw (acceptable, long) (by_parse parse (blank_bom (b'{' ∷ contents ++ b'}' ∷ []))))
    ]
