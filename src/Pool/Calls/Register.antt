-- ===== src/Pool/Calls/Register.antt =====
-- register_call: a new call takes a free entry, and fails only where all eight wait.
use epic_miner.Common.{
  ℕ, suc, ◌+◌, ◌%◌, ◌^◌, ◌≤◌, ◌<◌, ◌≡◌, refl, subst, ap, ◌∙◌, ◌↔◌, ◌≢◌, inl, inr, true, false, List,
  [], ◌∷◌, arith, ◌==◌, All, length, none, some, Option-cases, if◌then◌else◌, map,
}
use epic_miner.Pool.Calls.{
  CallType, invalid, CallMapping, CallTable, is_valid, flush_call_map, find_call, place,
  register_call, timed_out, invalidate,
}
use epic_miner.Pool.Calls.Laws.{expected, waiting, Distinct, IsValid, find_call-expected}

Distinct-mono : (m n : ℕ) (xs : List CallMapping) → m ≤ n → Distinct m xs → Distinct n xs
Distinct-mono m n [] h d = tt
Distinct-mono m n (x ∷ xs) h d =
    ((λ v. (omega (arith, d.0 v), (d.0 v).1)), Distinct-mono m n xs h d.1)

-- No call waits under an id that is not given out yet.
expected_fresh :
    (bound i : ℕ) (xs : List CallMapping) → Distinct bound xs → bound ≤ i → expected i xs ≡ none
unfolding expected
expected_fresh bound i [] d h = refl
expected_fresh bound i (x ∷ xs) d h = ground (arith, d.0, expected_fresh bound i xs d.1 h)

waiting-le-length : (xs : List CallMapping) → waiting xs ≤ length xs
unfolding waiting
waiting-le-length [] = omega arith
waiting-le-length (x ∷ xs) = ground (arith, waiting-le-length xs)

place-none :
    (new : CallMapping) (xs : List CallMapping) → (place new xs ≡ none) ↔ (waiting xs ≡ length xs)
unfolding place waiting
place-none new [] = ground arith
place-none new (x ∷ xs) =
    ground (arith, place-none new xs, waiting-le-length xs, Option-cases (place new xs))

module _ (new : CallMapping) (valid : is_valid new.call ≡ true) where
  place-expected :
      (xs ys : List CallMapping) (j : ℕ)
      → place new xs ≡ some ys
      → Distinct new.call_id xs
      → expected j ys ≡ (if new.call_id == j then some new else expected j xs)
  unfolding place expected
  place-expected [] ys j e d = cc
  place-expected (x ∷ xs) ys j e d = elim (Option-cases (place new xs)) [
    | inl full ↦ ground (arith, valid, d.0)
    | inr (zs, more) ↦ ground (arith, valid, d.0, place-expected xs zs j more d.1)
  ]

  place-Distinct :
      (xs ys : List CallMapping)
      → place new xs ≡ some ys
      → Distinct new.call_id xs
      → Distinct (suc new.call_id) ys
  unfolding place
  place-Distinct [] ys e d = cc
  place-Distinct (x ∷ xs) ys e d = elim (Option-cases (place new xs)) [
    | inl full ↦ ground (arith, valid, d.0, tail, fresh)
    | inr (zs, more) ↦ ground (
      arith,
      valid,
      d.0,
      tail,
      fresh,
      place-Distinct xs zs more d.1,
      place-expected xs zs x.call_id more d.1,
    )
  ]
    where
      tail : Distinct (suc new.call_id) xs
      tail = Distinct-mono new.call_id (suc new.call_id) xs (omega arith) d.1

      fresh : expected new.call_id xs ≡ none
      fresh = expected_fresh new.call_id new.call_id xs d.1 (omega arith)

  place-length :
      (xs ys : List CallMapping)
      → place new xs ≡ some ys
      → (length ys ≡ length xs) × (waiting ys ≡ waiting xs + 1)
  unfolding place waiting
  place-length [] ys e = cc
  place-length (x ∷ xs) ys e = elim (Option-cases (place new xs)) [
    | inl full ↦ ground (arith, valid)
    | inr (zs, more) ↦ ground (arith, valid, place-length xs zs more)
  ]

-- In a well-formed table register_call fails exactly where all eight entries wait for a reply.
pub register_call_full :
    (t : CallTable) (type : CallType) (miner_id now : ℕ)
    → IsValid t
    → (register_call t type miner_id now ≡ none) ↔ (waiting t.call_map ≡ 8)
unfolding register_call
register_call_full t type miner_id now v =
    let new : CallMapping = record {
      call_id = t.g_call_id;
      call = type;
      time_made = now;
      miner_id = miner_id;
    } in
    ground (arith, place-none new t.call_map, v.eight, Option-cases (place new t.call_map))

module _ (t : CallTable) (type : CallType) (miner_id now : ℕ) where
  abbrev made : CallMapping
  made = record { call_id = t.g_call_id; call = type; time_made = now; miner_id = miner_id }

  register_call-some :
      (id : ℕ) (t' : CallTable)
      → register_call t type miner_id now ≡ some (id, t')
      → (ys : List CallMapping) × (place made t.call_map ≡ some ys)
        × (id ≡ t.g_call_id)
        × (t' ≡ record { g_call_id = (t.g_call_id + 1) % 2 ^ 32; call_map = ys })
  unfolding register_call
  register_call-some id t' e = elim (Option-cases (place made t.call_map)) [
    | inl full ↦ absurd (ground arith)
    | inr (ys, more) ↦ (ys, more, ground arith, ground arith)
  ]

  -- The well-formed table that the new entries make.
  IsValid-place :
      (ys : List CallMapping)
      → IsValid t
      → is_valid type ≡ true
      → t.g_call_id + 1 < 2 ^ 32
      → place made t.call_map ≡ some ys
      → IsValid (record { g_call_id = (t.g_call_id + 1) % 2 ^ 32; call_map = ys })
  IsValid-place ys v ok small e =
      let bound : suc t.g_call_id ≡ (t.g_call_id + 1) % 2 ^ 32 = omega arith in
      record {
        eight = (place-length made ok t.call_map ys e).0 ∙ v.eight;
        distinct =
            subst (λ b. Distinct b ys) bound (place-Distinct made ok t.call_map ys e v.distinct);
      }

-- In a well-formed table and below the wrap of the id counter, a registered call gets an id that no waiting call has, the
-- table stays well formed with one more call, the reply to that id finds the call and its miner,
-- and the replies to all other ids find what they found before.
pub register_call_lem :
    (t t' : CallTable) (type : CallType) (miner_id now id j : ℕ)
    → IsValid t
    → is_valid type ≡ true
    → t.g_call_id + 1 < 2 ^ 32
    → register_call t type miner_id now ≡ some (id, t')
    → IsValid t'
      × (waiting t'.call_map ≡ waiting t.call_map + 1)
      × ((find_call t id).0.call ≡ invalid)
      × ((find_call t' id).0 ≡ record { call = type; miner_id = miner_id })
      × (id ≢ j → (find_call t' j).0 ≡ (find_call t j).0)
register_call_lem t t' type miner_id now id j v ok small e =
    let (ys, more, ei, et) = register_call-some t type miner_id now id t' e in
    let new = made t type miner_id now in
    let finds = λ (k : ℕ). place-expected new ok t.call_map ys k more v.distinct in
    let after : CallTable = record { g_call_id = (t.g_call_id + 1) % 2 ^ 32; call_map = ys } in
    rw (ei, et)
      (
        IsValid-place t type miner_id now ys v ok small more,
        (place-length new ok t.call_map ys more).1,
        ground (
          arith,
          find_call-expected t t.g_call_id,
          expected_fresh t.g_call_id t.g_call_id t.call_map v.distinct,
        ),
        ground (arith, find_call-expected after t.g_call_id, finds t.g_call_id),
        λ ne. ground (arith, find_call-expected after j, find_call-expected t j, finds j),
      )

-- A flush frees every entry: the next login gets id 0, and no old id is answered.
pub flush_call_map_lem :
    (t : CallTable) (i : ℕ)
    → length t.call_map ≡ 8
    → IsValid (flush_call_map t)
      × (waiting (flush_call_map t).call_map ≡ 0)
      × ((find_call (flush_call_map t) i).0.call ≡ invalid)
unfolding flush_call_map invalidate waiting expected
flush_call_map_lem t i h = (
  record { eight = flushed_length t.call_map ∙ h; distinct = flushed_distinct t.call_map },
  flushed_waiting t.call_map,
  ground (arith, find_call-expected (flush_call_map t) i, flushed_expected t.call_map),
)
  where
    flushed_length : (xs : List CallMapping) → length (map invalidate xs) ≡ length xs
    flushed_length [] = refl
    flushed_length (x ∷ xs) = ap suc (flushed_length xs)

    flushed_waiting : (xs : List CallMapping) → waiting (map invalidate xs) ≡ 0
    flushed_waiting [] = refl
    flushed_waiting (x ∷ xs) = omega (arith, flushed_waiting xs)

    flushed_expected : (xs : List CallMapping) → expected i (map invalidate xs) ≡ none
    flushed_expected [] = refl
    flushed_expected (x ∷ xs) = flushed_expected xs

    flushed_distinct : (xs : List CallMapping) → Distinct 0 (map invalidate xs)
    flushed_distinct [] = tt
    flushed_distinct (x ∷ xs) = ((λ v. absurd (ground arith)), flushed_distinct xs)

-- check_call_timeouts acts exactly where some waiting call is older than ten seconds: it does not
-- where every waiting call was made at most 10000 ms before.
pub timed_out_iff :
    (ts : ℕ) (xs : List CallMapping)
    → (timed_out ts xs ≡ false)
      ↔ All (λ (mp : CallMapping). is_valid mp.call ≡ true → ts ≤ mp.time_made + 10000) xs
unfolding timed_out
timed_out_iff ts [] = ((λ e. tt), (λ h. refl))
timed_out_iff ts (x ∷ xs) = (
  λ e. (λ v. ground arith, (timed_out_iff ts xs).0 (ground arith)),
  λ h. ground (arith, h.0, (timed_out_iff ts xs).1 h.1),
)
