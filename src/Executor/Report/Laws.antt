-- ===== src/Executor/Report/Laws.antt =====
-- What the error log and the hash rate report show of their entries.
use epic_miner.Common.{
  ℕ, zero, suc, ◌+◌, ◌-◌, ◌*◌, ◌≤◌, ◌<◌, ◌≡◌, refl, sym, ap, ◌∙◌, false, List, [], ◌∷◌, ◌++◌,
  append_assoc, append_nil, Option, none, some, ltb, leb, ltb→lt, lt→ltb, le→leb, if◌then◌else◌,
  Bool-cases, inl, inr, length, take, drop, arith,
}
use epic_miner.Misc.HumanTs.{human_ts}
use epic_miner.Job.{MinerType}
use epic_miner.Miner.Record.{Miner}
use epic_miner.Executor.Errors.{ErrorInfo}
use epic_miner.Executor.Report.{
  Cell, blank, last_seen, count, Row, column, row_at, error_rows, Rates, rates_of, add_row,
  report_rows, same_kind,
}

take-split : (n a b : ℕ) (xs : List ℕ) → n ≡ a + b → take n xs ≡ take a xs ++ take b (drop a xs)
take-split n zero b xs e = ap (λ (k : ℕ). take k xs) (e ∙ omega arith)
take-split zero (suc a) b xs e = absurd (omega arith)
take-split (suc n) (suc a) zero [] e = refl
take-split (suc n) (suc a) (suc b) [] e = refl
take-split (suc n) (suc a) b (x ∷ xs) e = ap (◌∷◌ x) (take-split n a b xs (omega arith))

take_all : (n : ℕ) (xs : List ℕ) → length xs ≤ n → take n xs ≡ xs
take_all zero [] h = refl
take_all zero (x ∷ xs) h = absurd (omega arith)
take_all (suc n) [] h = refl
take_all (suc n) (x ∷ xs) h = ap (◌∷◌ x) (take_all n xs (omega arith))

ltb→ge : (a b : ℕ) → ltb a b ≡ false → b ≤ a
ltb→ge a b h = ground arith

not_lt→ltb : (a b : ℕ) → b ≤ a → ltb a b ≡ false
not_lt→ltb a b h = ground arith

lt→leb : (a b : ℕ) → b < a → leb a b ≡ false
lt→leb a b h = ground arith

row_at-some :
    (msg : List ℕ) (offset : ℕ) (c : Cell) (rows : List Row)
    → offset ≤ length msg
    → row_at msg offset c (some rows)
      ≡ some (record { text = take 60 (drop offset msg); cell = c } ∷ rows)
unfolding row_at column
row_at-some msg offset c rows h = rw (row_at, le→leb offset (length msg) h) refl

row_at-none :
    (msg : List ℕ) (offset : ℕ) (c : Cell) (later : Option (List Row))
    → length msg < offset
    → row_at msg offset c later ≡ none
unfolding row_at column
row_at-none msg offset c later h = rw (row_at, lt→leb offset (length msg) h) refl

row_at-nothing : (msg : List ℕ) (offset : ℕ) (c : Cell) → row_at msg offset c none ≡ none
unfolding row_at column
row_at-nothing msg offset c = elim (Bool-cases (leb offset (length msg))) [
  | inl inside ↦ rw (row_at, inside) refl
  | inr outside ↦ rw (row_at, outside) refl
]

-- The texts of the rows, one after the other.
pub texts : List Row → List ℕ
texts [] = []
texts (r ∷ rows) = r.text ++ texts rows

short_rows :
    (now : ℕ) (msg : List ℕ) (info : ErrorInfo) → length msg < 60 → error_rows now msg info ≡ none
unfolding error_rows
short_rows now msg info h =
    let ts = human_ts (now - info.last_seen) in
    let seen = last_seen (ts.days * 24 + ts.hrs) ts.mins ts.secs in
    let first = row_at-none msg 60 (count info.count) (some []) h in
    rw (not_lt→ltb 120 (length msg) (omega arith)) (rw (first) (row_at-nothing msg 0 seen))

-- Two rows hold 120 characters, a third 180, a fourth 240.
two_rows : (msg : List ℕ) → take 60 msg ++ take 60 (drop 60 msg) ≡ take 120 msg
two_rows msg = sym (take-split 120 60 60 msg (omega arith))

three_rows : (msg : List ℕ) → take 120 msg ++ take 60 (drop 120 msg) ≡ take 180 msg
three_rows msg = sym (take-split 180 120 60 msg (omega arith))

four_rows : (msg : List ℕ) → take 180 msg ++ take 60 (drop 180 msg) ≡ take 240 msg
four_rows msg = sym (take-split 240 180 60 msg (omega arith))

abbrev part : List ℕ → ℕ → Cell → Row
part msg offset c = record { text = take 60 (drop offset msg); cell = c }

abbrev time_cell : ℕ → ErrorInfo → Cell
time_cell now info =
    let ts = human_ts (now - info.last_seen) in last_seen (ts.days * 24 + ts.hrs) ts.mins ts.secs

abbrev Shows : ℕ → List ℕ → ErrorInfo → List Row → Type 0
Shows now msg info rows = (error_rows now msg info ≡ some rows) × (texts rows ≡ take 240 msg)

-- Entries of 60 to 120 characters.
middle_rows :
    (now : ℕ) (msg : List ℕ) (info : ErrorInfo)
    → 60 ≤ length msg
    → length msg ≤ 120
    → Shows now msg info (part msg 0 (time_cell now info) ∷ part msg 60 (count info.count) ∷ [])
unfolding error_rows texts
middle_rows now msg info h m =
    let second = row_at-some msg 60 (count info.count) [] h in
    let first =
      row_at-some msg 0 (time_cell now info) (part msg 60 (count info.count) ∷ []) (omega arith) in
    let all_text = take_all 120 msg m ∙ sym (take_all 240 msg (omega arith)) in
    (
      rw (not_lt→ltb 120 (length msg) m) (rw (second) first),
      ap (λ (xs : List ℕ). take 60 msg ++ xs) (append_nil (take 60 (drop 60 msg)))
          ∙ (two_rows msg ∙ all_text),
    )

-- Entries of more than 120 characters: the rows behind the third.
long_rows :
    (now : ℕ) (msg : List ℕ) (info : ErrorInfo) (extra : List Row)
    → 120 < length msg
    → (if ltb 180 (length msg)
        then row_at msg 180 blank (some [])
        else some (record { text = []; cell = blank } ∷ []))
      ≡ some extra
    → take 180 msg ++ texts extra ≡ take 240 msg
    → Shows now msg info (
        part msg 0 blank
        ∷ part msg 60 (time_cell now info)
        ∷ part msg 120 (count info.count)
        ∷ extra)
unfolding error_rows texts
long_rows now msg info extra h e shown =
    let third = row_at-some msg 120 (count info.count) extra (omega arith) in
    let rows2 = part msg 120 (count info.count) ∷ extra in
    let second = row_at-some msg 60 (time_cell now info) rows2 (omega arith) in
    let first = row_at-some msg 0 blank (part msg 60 (time_cell now info) ∷ rows2) (omega arith) in
    let a = take 60 msg in
    let b = take 60 (drop 60 msg) in
    let c = take 60 (drop 120 msg) in
    (
      rw (lt→ltb 120 (length msg) h) (rw (e) (rw (third) (rw (second) first))),
      sym (append_assoc a b (c ++ texts extra))
          ∙ (ap (λ (xs : List ℕ). xs ++ (c ++ texts extra)) (two_rows msg)
              ∙ (sym (append_assoc (take 120 msg) c (texts extra))
                  ∙ (ap (λ (xs : List ℕ). xs ++ texts extra) (three_rows msg) ∙ shown))),
    )

three_long_rows :
    (now : ℕ) (msg : List ℕ) (info : ErrorInfo)
    → 120 < length msg
    → length msg ≤ 180
    → Shows now msg info (
        part msg 0 blank
        ∷ part msg 60 (time_cell now info)
        ∷ part msg 120 (count info.count)
        ∷ record { text = []; cell = blank }
        ∷ [])
three_long_rows now msg info h m =
    long_rows now msg info (record { text = []; cell = blank } ∷ []) h
      (rw (not_lt→ltb 180 (length msg) m) refl)
      (unfold texts in
        (append_nil (take 180 msg) ∙ (take_all 180 msg m ∙ sym (take_all 240 msg (omega arith)))))

four_long_rows :
    (now : ℕ) (msg : List ℕ) (info : ErrorInfo)
    → 180 < length msg
    → Shows now msg info (
        part msg 0 blank
        ∷ part msg 60 (time_cell now info)
        ∷ part msg 120 (count info.count)
        ∷ part msg 180 blank
        ∷ [])
four_long_rows now msg info h =
    long_rows now msg info (part msg 180 blank ∷ []) (omega arith)
      (rw (lt→ltb 180 (length msg) h) (row_at-some msg 180 blank [] (omega arith)))
      (unfold texts in
        (ap (λ (xs : List ℕ). take 180 msg ++ xs) (append_nil (take 60 (drop 180 msg)))
          ∙ four_rows msg))

-- print_error_log shows a message of 60 characters or more whole, up to 240 of them, over its rows in
-- order; for a shorter message it reads behind the end of the string.
pub error_rows_lem :
    (now : ℕ) (msg : List ℕ) (info : ErrorInfo)
    → (length msg < 60 → error_rows now msg info ≡ none)
      × (60 ≤ length msg
          → (rows : List Row) × ((error_rows now msg info ≡ some rows)
              × (texts rows ≡ take 240 msg)))
error_rows_lem now msg info = (
  short_rows now msg info,
  λ h. elim (Bool-cases (ltb 120 (length msg))) [
    | inr m ↦ (_, middle_rows now msg info h (ltb→ge 120 (length msg) m))
    | inl l ↦ elim (Bool-cases (ltb 180 (length msg))) [
      | inr m ↦
          (_, three_long_rows now msg info (ltb→lt 120 (length msg) l) (ltb→ge 180 (length msg) m))
      | inl m ↦ (_, four_long_rows now msg info (ltb→lt 180 (length msg) m))
    ]
  ],
)

-- The sum of a column, from the left.
pub total {ℓ} : {A : Type ℓ} {D : Type 0} → (D → D → D) → (A → D) → D → List A → D
total op column_of start [] = start
total op column_of start (row ∷ rows) = total op column_of (op start (column_of row)) rows

module _ {D : Type 0} (zero_hps : D) (plus max : D → D → D) (rate : ℕ → ℕ → D) (peak : ℕ → D) where
  -- In the last line of the hash rate report the columns of the four periods are the sums of the
  -- rows, the column of the peak is their greatest, and the column of the session is not a sum: it
  -- is that of the last row alone.
  pub report_rows-sums :
      (session_time : ℕ) (kind : MinerType) (miners : List Miner) (i : ℕ) (sum : Rates D)
      → let r = report_rows zero_hps plus max rate peak session_time kind miners i sum in
        (r.1.hr_10s ≡ total plus (λ row. row.1.hr_10s) sum.hr_10s r.0)
        × (r.1.hr_60s ≡ total plus (λ row. row.1.hr_60s) sum.hr_60s r.0)
        × (r.1.hr_10m ≡ total plus (λ row. row.1.hr_10m) sum.hr_10m r.0)
        × (r.1.hr_60m ≡ total plus (λ row. row.1.hr_60m) sum.hr_60m r.0)
        × (r.1.hr_peak ≡ total max (λ row. row.1.hr_peak) sum.hr_peak r.0)
        × (r.1.hr_sess ≡ total (λ x y. y) (λ row. row.1.hr_sess) sum.hr_sess r.0)
  unfolding report_rows add_row total
  report_rows-sums session_time kind [] i sum = (refl, refl, refl, refl, refl, refl)
  report_rows-sums session_time kind (m ∷ miners) i sum =
      let row = rates_of zero_hps plus max rate peak session_time i in
      elim (Bool-cases (same_kind m.kind kind)) [
        | inl same ↦ rw (same) (
            report_rows-sums session_time kind miners (i + 1)
              (add_row zero_hps plus max rate peak sum row))
        | inr other ↦ rw (other) (report_rows-sums session_time kind miners (i + 1) sum)
      ]
