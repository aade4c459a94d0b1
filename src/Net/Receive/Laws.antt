-- ===== src/Net/Receive/Laws.antt =====
-- consume_loop with a consumer that keeps its contract.
use epic_miner.Common.{
  ℕ, zero, suc, ◌≤◌, ◌<◌, ◌≡◌, refl, ap, subst, ◌∙◌, inl, inr, true, false, ◌||◌, List, [], ◌∷◌,
  ◌++◌, arith, ==_iff, Option, none, some, ltb, ◌==◌, length, length-drop, take, drop, Option-cases,
  Bool-cases,
}
use epic_miner.Net.Receive.{Consumed, Consumer, Drained, after_call, consume_rounds, consume_loop}

-- The contract of `data_consumer_t`: at most the bytes given are consumed, and the bytes that are
-- not consumed stay as they are.
pub record IsConsumer {S : Type 0} (consume : Consumer S) : Type 0 where
  pub within :
      (s : S) (window : List ℕ) (cd : ℕ) → (consume s window).count ≡ some cd → cd ≤ length window
  pub sized :
      (s : S) (window : List ℕ) (cd : ℕ)
      → (consume s window).count ≡ some cd
      → length (consume s window).window ≡ length window
  pub keeps :
      (s : S) (window : List ℕ) (cd : ℕ)
      → (consume s window).count ≡ some cd
      → drop cd (consume s window).window ≡ drop cd window

-- Successive calls of the consumer on the bytes received, and what the drain leaves: each call is
-- given the bytes that the calls before it have not consumed. It ends with a call that consumes
-- nothing, and leaves what it was given; with one that consumes all; or with a refusal.
pub data Calls {S : Type 0} (consume : Consumer S) : S → List ℕ → Drained S → Type 0 where
  waits :
      (s : S) (bytes : List ℕ) (d : Drained S)
      → (consume s bytes).count ≡ some 0
      → d.state ≡ (consume s bytes).state
      → d.bytes ≡ bytes
      → d.result ≡ true
      → Calls consume s bytes d
  empties :
      (s : S) (bytes : List ℕ) (d : Drained S)
      → (consume s bytes).count ≡ some (length bytes)
      → d.state ≡ (consume s bytes).state
      → d.bytes ≡ []
      → d.result ≡ true
      → Calls consume s bytes d
  goes_on :
      (s : S) (bytes : List ℕ) (d : Drained S) (cd : ℕ)
      → (consume s bytes).count ≡ some cd
      → 0 < cd
      → cd < length bytes
      → Calls consume (consume s bytes).state (drop cd bytes) d
      → Calls consume s bytes d
  refuses :
      (s : S) (bytes : List ℕ) (d : Drained S)
      → (consume s bytes).count ≡ none
      → d.state ≡ (consume s bytes).state
      → d.result ≡ false
      → Calls consume s bytes d

length-zero : (xs : List ℕ) → length xs ≡ 0 → xs ≡ []
length-zero [] e = refl
length-zero (x ∷ xs) e = absurd (omega (arith, e))

module _ {S : Type 0} (before window : List ℕ) (c : Consumed S)
    (again : List ℕ → List ℕ → Option (Drained S)) where
  call_refused :
      c.count ≡ none
      → after_call before window c again
        ≡ some (record { state = c.state; bytes = before ++ c.window; result = false })
  unfolding after_call
  call_refused e = rw (e, after_call)

  call_last :
      (cd : ℕ)
      → c.count ≡ some cd
      → cd ≤ length window
      → (cd == 0 || length (drop cd c.window) == 0) ≡ true
      → after_call before window c again
        ≡ some (record { state = c.state; bytes = drop cd c.window; result = true })
  unfolding after_call
  call_last cd e fits stop =
      let low : ltb (length window) cd ≡ false = ground arith in
      rw (e, after_call) (rw (low, stop) refl)

  call_again :
      (cd : ℕ)
      → c.count ≡ some cd
      → cd ≤ length window
      → (cd == 0 || length (drop cd c.window) == 0) ≡ false
      → after_call before window c again ≡ again (before ++ take cd c.window) (drop cd c.window)
  unfolding after_call
  call_again cd e fits more =
      let low : ltb (length window) cd ≡ false = ground arith in
      rw (e, after_call) (rw (low, more) refl)

module _ {S : Type 0} (consume : Consumer S) (ok : IsConsumer consume) where
  -- The call after which the loop ends.
  last-Calls :
      (s : S) (window : List ℕ) (cd : ℕ)
      → (consume s window).count ≡ some cd
      → (cd == 0 || length (drop cd (consume s window).window) == 0) ≡ true
      → Calls consume s window (record {
        state = (consume s window).state;
        bytes = drop cd (consume s window).window;
        result = true;
      })
  last-Calls s window cd took stop =
      let kept = ok.keeps s window cd took in
      elim (Bool-cases (cd == 0)) [
        | inl nothing ↦
            let is : cd ≡ 0 = (==_iff cd 0).0 nothing in
            let same : drop cd window ≡ window = ap (λ (k : ℕ). drop k window) is in
            waits s window _ (took ∙ ap some is) refl (kept ∙ same) refl
        | inr more ↦
            let fits = ok.within s window cd took in
            let left : length (drop cd (consume s window).window) ≡ 0 =
              ground (arith, stop, more) in
            let over = length-drop cd window in
            let is : cd ≡ length window = omega (arith, over, left, fits, ap length kept) in
            empties s window _ (took ∙ ap some is) refl
              (length-zero (drop cd (consume s window).window) left) refl
      ]

  rounds-Calls :
      (fuel : ℕ) (s : S) (before window : List ℕ)
      → length window < fuel
      → (d : Drained S) × (consume_rounds consume fuel s before window ≡ some d)
        × Calls consume s window d
  unfolding consume_rounds
  rounds-Calls zero s before window h = absurd (omega arith)
  rounds-Calls (suc fuel) s before window h =
      let c = consume s window in
      let again = λ (b r : List ℕ). consume_rounds consume fuel c.state b r in
      elim (Option-cases c.count) [
        | inl refused ↦ (
          record { state = c.state; bytes = before ++ c.window; result = false },
          call_refused before window c again refused,
          refuses s window _ refused refl refl,
        )
        | inr (cd, took) ↦
            let fits = ok.within s window cd took in
            let kept = ok.keeps s window cd took in
            elim (Bool-cases (cd == 0 || length (drop cd c.window) == 0)) [
              | inl stop ↦ (
                record { state = c.state; bytes = drop cd c.window; result = true },
                call_last before window c again cd took fits stop,
                last-Calls s window cd took stop,
              )
              | inr more ↦
                  let size = length-drop cd c.window in
                  let sized = ok.sized s window cd took in
                  let shorter : length (drop cd c.window) < fuel =
                    ground (arith, size, sized, more) in
                  let some_bytes : 0 < cd = ground (arith, more) in
                  let inside : cd < length window = ground (arith, size, sized, more) in
                  let (d, e, r) =
                    rounds-Calls fuel c.state (before ++ take cd c.window) (drop cd c.window)
                      shorter in
                  (
                    d,
                    call_again before window c again cd took fits more ∙ e,
                    goes_on s window d cd took some_bytes inside
                        (subst (λ w. Calls consume c.state w d) kept r),
                  )
            ]
      ]

  -- With a consumer that keeps its contract the loop ends without failing its assertion, after
  -- successive calls of the consumer, each on exactly the bytes not yet consumed. If no call refuses,
  -- true is returned, and the bytes that the last call has not consumed stay in the buffer, in order and
  -- unchanged; after a refusal false is returned.
  pub consume_loop-Drains :
      (s : S) (bytes : List ℕ)
      → (d : Drained S) × (consume_loop consume s bytes ≡ some d) × Calls consume s bytes d
  unfolding consume_loop
  consume_loop-Drains s bytes = rounds-Calls (suc (length bytes)) s [] bytes (omega arith)
