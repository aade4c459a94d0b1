-- ===== src/Misc/RingBuffer/Recent.antt =====
-- ring_buffer as a log of the most recent values: element 0 is the newest.
use native.Mathlib.Nat.{mod-eq_of_lt, mod-lt, mod_self, mul-add-mod_self_right}
use native.Mathlib.Numerals.{add-one}
use epic_miner.Common.{
  ℕ, zero, suc, ◌+◌, ◌-◌, ◌*◌, ◌%◌, ◌^◌, ◌≤◌, ◌<◌, ◌≡◌, refl, ◌∙◌, ◌≢◌, List, [], ◌∷◌, arith, ltb,
  ltb→lt, ◌==◌, ==_iff, if◌then◌else◌, some, Bool-cases, inl, inr, length, length-set,
  length-replicate, get_elem?, get_elem?-set_self, get_elem?-set_ne, get_elem?-replicate, replicate,
  sym, ◌++◌, Bool, true, false,
}
use epic_miner.Misc.RingBuffer.{RingBuffer, sub64, slot, insert, get, fill, fresh}

-- The array has N elements and `pos` is one of its indices.
pub record IsValid {ℓ} {A : Type ℓ} (n : ℕ) (rb : RingBuffer A) : Type 0 where
  pub sized : length rb.slots ≡ n
  pub within : rb.pos < n

-- The slot without wrap-around, where N divides 2 ^ 64.
slot_lem :
    (d n pos idx : ℕ)
    → 2 ^ 64 ≡ d * n + n
    → pos < n
    → idx < n
    → slot n pos idx ≡ (if ltb idx pos then pos - 1 - idx else n + pos - 1 - idx)
unfolding slot
slot_lem d n pos idx e p q = elim (Bool-cases (ltb idx pos)) [
  | inl h ↦
      let lt : idx < pos = ltb→lt idx pos h in
      let w : sub64 (sub64 pos idx) 1 ≡ pos - 1 - idx = omega arith in
      let small : pos - 1 - idx < n = omega arith in rw (h, w) (mod-eq_of_lt small)
  | inr h ↦
      let ge : pos ≤ idx = ground arith in
      let w : sub64 (sub64 pos idx) 1 ≡ d * n + (n + pos - 1 - idx) = omega arith in
      let small : n + pos - 1 - idx < n = omega arith in
      rw (h, w, mul-add-mod_self_right d n (n + pos - 1 - idx)) (mod-eq_of_lt small)
]

-- The next position, by cases.
next_pos :
    (d n pos : ℕ)
    → 2 ^ 64 ≡ d * n + n
    → pos < n
    → (pos + 1) % 2 ^ 64 % n ≡ (if pos + 1 == n then 0 else pos + 1)
next_pos d n pos e h = elim (Bool-cases (pos + 1 == n)) [
  | inl last ↦
      let same : pos + 1 ≡ n = (==_iff (pos + 1) n).0 last in
      rw (last, same) (wraps (n == 2 ^ 64) refl)
  | inr more ↦
      let small : pos + 1 < n = ground arith in
      let w : (pos + 1) % 2 ^ 64 ≡ pos + 1 = omega arith in rw (more, w) (mod-eq_of_lt small)
]
  where
    wraps : (b : Bool) → (n == 2 ^ 64) ≡ b → n % 2 ^ 64 % n ≡ 0
    wraps true full = let same : n ≡ 2 ^ 64 = (==_iff n (2 ^ 64)).0 full in rw same refl
    wraps false part = let less : n < 2 ^ 64 = ground arith in rw (mod-eq_of_lt less) (mod_self n)

-- After an insertion index 0 is the slot just written, index i + 1 the slot that index i was, and
-- the two differ.
slots_move :
    (d n pos i : ℕ)
    → 2 ^ 64 ≡ d * n + n
    → pos < n
    → i + 1 < n
    → let pos' = (pos + 1) % 2 ^ 64 % n in
      (slot n pos' (i + 1) ≡ slot n pos i) × (pos ≢ slot n pos i)
slots_move d n pos i e p h =
    let pos' = (pos + 1) % 2 ^ 64 % n in
    let within : pos' < n = mod-lt _ (omega arith) in
    ground
      (arith, next_pos d n pos e p, slot_lem d n pos' (i + 1) e within h, slot_lem d n pos i e p)

slot_zero : (d n pos : ℕ) → 2 ^ 64 ≡ d * n + n → pos < n → slot n ((pos + 1) % 2 ^ 64 % n) 0 ≡ pos
slot_zero d n pos e p =
    let pos' = (pos + 1) % 2 ^ 64 % n in
    let within : pos' < n = mod-lt _ (omega arith) in
    ground (arith, next_pos d n pos e p, slot_lem d n pos' 0 e within)

module _ {ℓ} {A : Type ℓ} (d n : ℕ) (divides : 2 ^ 64 ≡ d * n + n) where
  pub insert-IsValid : (v : A) (rb : RingBuffer A) → IsValid n rb → IsValid n (insert n v rb)
  unfolding insert
  insert-IsValid v rb ok = record {
    sized = length-set rb.slots rb.pos v ∙ ok.sized;
    within = mod-lt _ (omega arith);
  }

  pub fill-IsValid : (v : A) (rb : RingBuffer A) → rb.pos < n → IsValid n (fill n v rb)
  unfolding fill
  fill-IsValid v rb h = record { sized = length-replicate n v; within = h }

  -- The value just inserted is element 0.
  pub get-insert_zero :
      (v : A) (rb : RingBuffer A) → IsValid n rb → get n (insert n v rb) 0 ≡ some v
  unfolding insert get
  get-insert_zero v rb ok =
      let within : rb.pos < length rb.slots = rw ok.sized ok.within in
      rw (get, slot_zero d n rb.pos divides ok.within) (get_elem?-set_self rb.slots rb.pos v within)

  -- An insertion moves every other element one place back; the oldest is dropped.
  pub get-insert_suc :
      (v : A) (rb : RingBuffer A) (i : ℕ)
      → IsValid n rb
      → i + 1 < n
      → get n (insert n v rb) (i + 1) ≡ get n rb i
  unfolding insert get
  get-insert_suc v rb i ok h =
      let moves = slots_move d n rb.pos i divides ok.within h in
      rw (get, moves.0) (get_elem?-set_ne rb.slots rb.pos (slot n rb.pos i) v moves.1)

  -- A buffer filled with `v0`, then given the values of a history, newest first.
  pub after_inserts : List A → A → List A → RingBuffer A
  after_inserts memory v0 [] = fill n v0 (fresh memory)
  after_inserts memory v0 (v ∷ vs) = insert n v (after_inserts memory v0 vs)

  after_inserts-IsValid :
      (memory : List A) (v0 : A) (vs : List A) → 0 < n → IsValid n (after_inserts memory v0 vs)
  unfolding after_inserts fresh
  after_inserts-IsValid memory v0 [] h = fill-IsValid v0 (fresh memory) h
  after_inserts-IsValid memory v0 (v ∷ vs) h =
      insert-IsValid v (after_inserts memory v0 vs) (after_inserts-IsValid memory v0 vs h)

  -- operator[] reads the history: for an N that divides 2 ^ 64 and an i below N, element i of a buffer
  -- that was filled and then written is the i-th newest value, and the initial value where the history is shorter than that.
  pub get-after_inserts :
      (memory : List A) (v0 : A) (vs : List A) (i : ℕ)
      → i < n
      → get n (after_inserts memory v0 vs) i ≡ get_elem? (vs ++ replicate n v0) i
  unfolding after_inserts
  get-after_inserts memory v0 [] i h =
      unfold get fill slot in
      get_elem?-replicate n _ v0 (mod-lt _ (omega arith)) ∙ sym (get_elem?-replicate n i v0 h)
  get-after_inserts memory v0 (v ∷ vs) zero h =
      get-insert_zero v (after_inserts memory v0 vs) (after_inserts-IsValid memory v0 vs h)
  get-after_inserts memory v0 (v ∷ vs) (suc i) h =
      let valid = after_inserts-IsValid memory v0 vs (omega arith) in
      let fits : i + 1 < n = omega arith in
      let moved = get-insert_suc v (after_inserts memory v0 vs) i valid fits in
      rw add-one at moved ∙ get-after_inserts memory v0 vs i (omega arith)
