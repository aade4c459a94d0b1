-- ===== src/Pool/Receive/Laws.antt =====
-- What net_on_data_recv promises the network interface, and what it does with two lines at once.
use epic_miner.Common.{
  ℕ, zero, suc, ◌+◌, ◌≤◌, ◌<◌, ◌≡◌, refl, sym, ap, subst, ◌≢◌, ◌⊎◌, inl, inr, true, false, List, [],
  ◌∷◌, ◌++◌, arith, ==_iff, Option, none, some, codes, length, length-append, length-take,
  length-drop, get_or, take, drop, Option-cases,
}
use epic_miner.Json.{Value, Members, as_object}
use epic_miner.Pool.State.{Pool, net_on_error}
use epic_miner.Pool.Messages.{Handled, process_json_doc}
use epic_miner.Pool.Receive.{my_memrchr, Received, finish, receive_line, net_on_data_recv}

-- The position found is that of the last occurrence.
my_memrchr_lem : (m : List ℕ) (c n i : ℕ) → my_memrchr m c n ≡ some i → (i < n) × (get_or m i 0 ≡ c)
unfolding my_memrchr
my_memrchr_lem m c zero i e = absurd (cc)
my_memrchr_lem m c (suc n) i e = ground (arith, my_memrchr_lem m c n i)

my_memrchr-none :
    (m : List ℕ) (c n : ℕ) → my_memrchr m c n ≡ none → (j : ℕ) → j < n → get_or m j 0 ≢ c
unfolding my_memrchr
my_memrchr-none m c zero e j p = absurd (omega arith)
my_memrchr-none m c (suc n) e j p =
    ground (arith, λ (h : my_memrchr m c n ≡ none) (lt : j < n). my_memrchr-none m c n h j lt)

my_memrchr_last :
    (m : List ℕ) (c n i : ℕ)
    → my_memrchr m c n ≡ some i
    → (j : ℕ) → i < j
    → j < n
    → get_or m j 0 ≢ c
unfolding my_memrchr
my_memrchr_last m c zero i e j p q = absurd (cc)
my_memrchr_last m c (suc n) i e j p q =
    ground (arith, λ (h : my_memrchr m c n ≡ some i) (lt : j < n). my_memrchr_last m c n i h j p lt)

get_or-append : (s r : List ℕ) (c : ℕ) → get_or (s ++ c ∷ r) (length s) 0 ≡ c
get_or-append [] r c = refl
get_or-append (x ∷ s) r c = get_or-append s r c

take-append : (s r : List ℕ) → take (length s) (s ++ r) ≡ s
take-append [] r = refl
take-append (x ∷ s) r = ap (◌∷◌ x) (take-append s r)

my_memrchr_line :
    (s : List ℕ) (c n : ℕ) → n ≡ suc (length s) → my_memrchr (s ++ c ∷ []) c n ≡ some (length s)
unfolding my_memrchr
my_memrchr_line s c zero e = absurd (omega arith)
my_memrchr_line s c (suc n) e =
    let same : n ≡ length s = omega arith in
    rw same (ground (arith, get_or-append s [] c, ==_iff c c))

module _ (parse_insitu : List ℕ → List ℕ × Option Value) where
  -- Parsing in place keeps the size of the text.
  abbrev pub InPlace : Type 0
  InPlace = (s : List ℕ) → length (parse_insitu s).0 ≡ length s

  -- What becomes of the line before the newline at `stop`: a text that is no object ends the
  -- connection with an error, an object is handled as a message, and is consumed with its newline unless
  -- it is refused.
  pub data Serves (p : Pool) (input : List ℕ) (stop ts_now : ℕ) (r : Received) : Type 0 where
    no_document :
        (parse_insitu (take stop input)).1 ≡ none
        → r.reaction ≡ net_on_error p (codes "JSON parse error")
        → r.consumed ≡ none
        → Serves p input stop ts_now r
    no_object :
        (v : Value)
        → (parse_insitu (take stop input)).1 ≡ some v
        → as_object v ≡ none
        → r.reaction ≡ net_on_error p (codes "JSON parse error")
        → r.consumed ≡ none
        → Serves p input stop ts_now r
    accepts :
        (v : Value) (doc : Members)
        → (parse_insitu (take stop input)).1 ≡ some v
        → as_object v ≡ some doc
        → process_json_doc p doc ts_now ≡ some (r.reaction, true)
        → r.consumed ≡ some (stop + 1)
        → Serves p input stop ts_now r
    refuses :
        (v : Value) (doc : Members)
        → (parse_insitu (take stop input)).1 ≡ some v
        → as_object v ≡ some doc
        → process_json_doc p doc ts_now ≡ some (r.reaction, false)
        → r.consumed ≡ none
        → Serves p input stop ts_now r

  finish_lem :
      (buffer : List ℕ) (len : ℕ) (h : Handled) (r : Received)
      → finish buffer len h ≡ some r
      → (r.buffer ≡ buffer)
        × (((h ≡ some (r.reaction, true)) × (r.consumed ≡ some len))
            ⊎ ((h ≡ some (r.reaction, false)) × (r.consumed ≡ none)))
  unfolding finish
  finish_lem buffer len none r e = absurd (cc)
  finish_lem buffer len (some (reaction, true)) r e = ground arith
  finish_lem buffer len (some (reaction, false)) r e = ground arith

  receive_line_lem :
      (p : Pool) (input : List ℕ) (stop ts_now : ℕ) (r : Received)
      → receive_line parse_insitu p input stop ts_now ≡ some r
      → (r.buffer ≡ (parse_insitu (take stop input)).0 ++ 0 ∷ drop (stop + 1) input)
        × Serves p input stop ts_now r
  unfolding receive_line
  receive_line_lem p input stop ts_now r e =
      let doc = (parse_insitu (take stop input)).1 in
      elim (Option-cases doc) [
        | inl no_doc ↦ (
          ground (arith, no_doc, e),
          no_document no_doc (ground (arith, no_doc, e)) (ground (arith, no_doc, e)),
        )
        | inr (v, some_doc) ↦ elim (Option-cases (as_object v)) [
          | inl other ↦ (
            ground (arith, some_doc, other, e),
            no_object v some_doc other (ground (arith, some_doc, other, e))
                (ground (arith, some_doc, other, e)),
          )
          | inr (ms, object) ↦
              let (b, how) =
                finish_lem _ (stop + 1) (process_json_doc p ms ts_now) r
                  (ground (arith, some_doc, object, e)) in
              (
                b,
                elim how [
                  | inl (h, c) ↦ accepts v ms some_doc object h c
                  | inr (h, c) ↦ refuses v ms some_doc object h c
                ],
              )
        ]
      ]

  -- The last newline received.
  abbrev IsLast : List ℕ → ℕ → ℕ → Type 0
  IsLast input len stop =
      (stop < len)
      × (get_or input stop 0 ≡ b'\n')
      × ((j : ℕ) → stop < j → j < len → get_or input j 0 ≢ b'\n')

  -- How net_on_data_recv ends.
  abbrev pub Ends : Pool → List ℕ → ℕ → ℕ → Option Received → Type 0
  Ends p input len ts_now none =
      (stop : ℕ) × (v : Value) × (doc : Members) × IsLast input len stop
      × ((parse_insitu (take stop input)).1 ≡ some v)
      × (as_object v ≡ some doc)
      × (process_json_doc p doc ts_now ≡ none)
  Ends p input len ts_now (some r) =
      (length r.buffer ≡ length input)
      × ((((j : ℕ) → j < len → get_or input j 0 ≢ b'\n')
            × (r ≡ record { buffer = input; reaction = (p, []); consumed = some 0 }))
          ⊎ ((stop : ℕ) × IsLast input len stop × Serves p input stop ts_now r))

  finish-none : (buffer : List ℕ) (len : ℕ) (h : Handled) → finish buffer len h ≡ none → h ≡ none
  unfolding finish
  finish-none buffer len none e = refl
  finish-none buffer len (some (reaction, done)) e = absurd (cc (e))

  receive_line-none :
      (p : Pool) (input : List ℕ) (stop ts_now : ℕ)
      → receive_line parse_insitu p input stop ts_now ≡ none
      → (v : Value) × (doc : Members) × ((parse_insitu (take stop input)).1 ≡ some v)
        × (as_object v ≡ some doc)
        × (process_json_doc p doc ts_now ≡ none)
  unfolding receive_line
  receive_line-none p input stop ts_now e =
      let doc = (parse_insitu (take stop input)).1 in
      elim (Option-cases doc) [
        | inl no_doc ↦ absurd (ground (arith, no_doc, e))
        | inr (v, some_doc) ↦ elim (Option-cases (as_object v)) [
          | inl other ↦ absurd (ground (arith, some_doc, other, e))
          | inr (ms, object) ↦ (
            v,
            ms,
            some_doc,
            object,
            finish-none ((parse_insitu (take stop input)).0 ++ 0 ∷ drop (stop + 1) input) (stop + 1)
                (process_json_doc p ms ts_now) (ground (arith, some_doc, object, e)),
          )
        ]
      ]

  net_on_data_recv-none :
      (p : Pool) (input : List ℕ) (len ts_now : ℕ)
      → net_on_data_recv parse_insitu p input len ts_now ≡ none
      → Ends p input len ts_now none
  unfolding net_on_data_recv
  net_on_data_recv-none p input len ts_now e = elim (Option-cases (my_memrchr input b'\n' len)) [
    | inl missing ↦ absurd (ground (arith, missing, e))
    | inr (stop, found) ↦
        let at = my_memrchr_lem input b'\n' len stop found in
        let last = my_memrchr_last input b'\n' len stop found in
        let (v, doc, parses, object, stuck) =
          receive_line-none p input stop ts_now (ground (arith, found, e)) in
        (stop, v, doc, (at.0, at.1, last), parses, object, stuck)
  ]

  net_on_data_recv-some :
      (p : Pool) (input : List ℕ) (len ts_now : ℕ) (r : Received)
      → InPlace
      → len ≤ length input
      → net_on_data_recv parse_insitu p input len ts_now ≡ some r
      → Ends p input len ts_now (some r)
  unfolding net_on_data_recv
  net_on_data_recv-some p input len ts_now r same fits e =
      elim (Option-cases (my_memrchr input b'\n' len)) [
        | inl missing ↦ (
          ground (arith, missing, e),
          inl (my_memrchr-none input b'\n' len missing, ground (arith, missing, e)),
        )
        | inr (stop, found) ↦
            let at = my_memrchr_lem input b'\n' len stop found in
            let line = receive_line_lem p input stop ts_now r (ground (arith, found, e)) in
            (
              line_size stop line.0 (omega (arith, at.0)),
              inr (stop, (at.0, at.1, my_memrchr_last input b'\n' len stop found), line.1),
            )
      ]
    where
      line_size :
          (stop : ℕ)
          → r.buffer ≡ (parse_insitu (take stop input)).0 ++ 0 ∷ drop (stop + 1) input
          → stop < length input
          → length r.buffer ≡ length input
      line_size stop b lt = omega (
        arith,
        ap length b,
        length-append (parse_insitu (take stop input)).0 (0 ∷ drop (stop + 1) input),
        same (take stop input),
        length-take stop input,
        length-drop (stop + 1) input,
      )

  -- What the network interface relies on, with a parser that keeps the size of its text. Either no
  -- newline is received: nothing happens and nothing is consumed. Or the text up to the last newline is
  -- handled: a text that is no object ends the connection with an error, and an object is handled as a
  -- message. -1 is returned if it is no object or the message is refused, otherwise all up to the
  -- last newline is consumed. The buffer keeps its size. An assertion fails only where
  -- process_json_doc fails one on the message.
  pub net_on_data_recv_lem :
      (p : Pool) (input : List ℕ) (len ts_now : ℕ)
      → InPlace
      → len ≤ length input
      → Ends p input len ts_now (net_on_data_recv parse_insitu p input len ts_now)
  net_on_data_recv_lem p input len ts_now same fits =
      elim (Option-cases (net_on_data_recv parse_insitu p input len ts_now)) [
        | inl e ↦
            subst (λ (o : Option Received). Ends p input len ts_now o) (sym e)
              (net_on_data_recv-none p input len ts_now e)
        | inr (r, e) ↦
            subst (λ (o : Option Received). Ends p input len ts_now o) (sym e)
              (net_on_data_recv-some p input len ts_now r same fits e)
      ]

  -- A text that parses as one document.
  abbrev pub IsDoc : List ℕ → Type 0
  IsDoc s = (v : Value) × ((parse_insitu s).1 ≡ some v)

  -- Two messages that arrive in one read. The parser takes a text for one document, and refuses a
  -- document that is followed by another. Since the pool cuts at the last newline, two lines that are
  -- received together are handed over as one text: the connection is given up with a parse error, and
  -- neither message is handled.
  pub two_lines_refused :
      (p : Pool) (a b : List ℕ) (ts_now : ℕ)
      → ((x y : List ℕ) → IsDoc x → IsDoc y → (parse_insitu (x ++ b'\n' ∷ y)).1 ≡ none)
      → IsDoc a
      → IsDoc b
      → let input = (a ++ b'\n' ∷ b) ++ b'\n' ∷ [] in
        (buffer : List ℕ) × (net_on_data_recv parse_insitu p input (length input) ts_now
          ≡ some (record {
            buffer = buffer;
            reaction = net_on_error p (codes "JSON parse error");
            consumed = none;
          }))
  unfolding net_on_data_recv receive_line
  two_lines_refused p a b ts_now one da db =
      let text = a ++ b'\n' ∷ b in
      let input = text ++ b'\n' ∷ [] in
      let size : length input ≡ suc (length text) =
        omega (arith, length-append text (b'\n' ∷ [])) in
      let found = my_memrchr_line text b'\n' (length input) size in
      let cut = take-append text (b'\n' ∷ []) in
      let none_ = one a b da db in
      (
        (parse_insitu text).0 ++ 0 ∷ drop (length text + 1) input,
        rw (found, net_on_data_recv)
            (rw (cut, receive_line) (rw (none_, receive_line) (rw cut refl))),
      )
