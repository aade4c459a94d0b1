-- ===== src/Miner/Queue/Laws.antt =====
-- No result is lost, doubled or overtaken on its way to the executor.
use epic_miner.Common.{
  ◌≡◌, refl, sym, ap, ◌∙◌, inl, inr, true, false, Bool-cases, List, [], ◌∷◌, ◌++◌, append_assoc,
  append_nil, Option, none, some,
}
use epic_miner.Job.{MinerResult}
use epic_miner.Miner.Queue.{
  Handover, handover, emplace_back, async_send, wake, pop_front, hand_on, stop, Step, finds,
  signals, wakes, takes, hands_on, stops, Steps, done, more,
}

pub held : Option MinerResult → List MinerResult
held none = []
held (some res) = res ∷ []

never {ℓ} : {A : Type ℓ} → true ≡ false → A
never e = absurd (cc e)

-- What was found is what was sent, then what is in hand, then what waits, in this order; only a
-- running callback has a result in hand; and where a result waits, something will come for it.
pub IsKept : Handover → Type 0
unfolding held
IsKept h =
    (h.found ≡ h.sent ++ (held h.in_hand ++ h.result_q))
    × ((h.draining ≡ false → h.in_hand ≡ none)
        × (h.unsignalled ≡ false → h.pending ≡ false → h.draining ≡ false → h.result_q ≡ []))

handover-IsKept : IsKept handover
unfolding IsKept held
handover-IsKept = (refl, (λ e. refl, λ a b c. refl))

emplace_back-IsKept : (h : Handover) (res : MinerResult) → IsKept h → IsKept (emplace_back res h)
unfolding IsKept emplace_back held
emplace_back-IsKept h res (order, (idle, covered)) = (
  ap (λ (xs : List MinerResult). xs ++ res ∷ []) order
      ∙ (append_assoc h.sent (held h.in_hand ++ h.result_q) (res ∷ [])
          ∙ ap (λ (xs : List MinerResult). h.sent ++ xs)
              (append_assoc (held h.in_hand) h.result_q (res ∷ []))),
  (idle, λ a b c. never a),
)

async_send-IsKept : (h : Handover) → IsKept h → IsKept (async_send h)
unfolding IsKept async_send
async_send-IsKept h (order, (idle, covered)) = (order, (idle, λ a b c. never b))

wake-IsKept : (h : Handover) → h.draining ≡ false → IsKept h → IsKept (wake h)
unfolding IsKept wake
wake-IsKept h quiet (order, (idle, covered)) = (order, (λ e. never e, λ a b c. never c))

pop_front-IsKept :
    (h : Handover) (res : MinerResult) (rest : List MinerResult)
    → h.draining ≡ true
    → h.in_hand ≡ none
    → h.result_q ≡ res ∷ rest
    → IsKept h
    → IsKept (pop_front res rest h)
unfolding IsKept pop_front held
pop_front-IsKept h res rest running free front (order, (idle, covered)) = (
  order
      ∙ (ap (λ (o : Option MinerResult). h.sent ++ (held o ++ h.result_q)) free
          ∙ ap (λ (xs : List MinerResult). h.sent ++ xs) front),
  (λ e. never (sym running ∙ e), λ a b c. never (sym running ∙ c)),
)

hand_on-IsKept :
    (h : Handover) (res : MinerResult) → h.in_hand ≡ some res → IsKept h → IsKept (hand_on res h)
unfolding IsKept hand_on held
hand_on-IsKept h res holds (order, (idle, covered)) = (
  order
      ∙ (ap (λ (o : Option MinerResult). h.sent ++ (held o ++ h.result_q)) holds
          ∙ sym (append_assoc h.sent (res ∷ []) h.result_q)),
  (λ e. refl, covered),
)

stop-IsKept : (h : Handover) → h.in_hand ≡ none → h.result_q ≡ [] → IsKept h → IsKept (stop h)
unfolding IsKept stop
stop-IsKept h free empty (order, (idle, covered)) = (order, (λ e. free, λ a b c. empty))

Step-IsKept : (a b : Handover) → Step a b → IsKept a → IsKept b
Step-IsKept _ _ (finds h res e) kept = emplace_back-IsKept h res kept
Step-IsKept _ _ (signals h e) kept = async_send-IsKept h kept
Step-IsKept _ _ (wakes h e f) kept = wake-IsKept h f kept
Step-IsKept _ _ (takes h res rest e f g) kept = pop_front-IsKept h res rest e f g kept
Step-IsKept _ _ (hands_on h res e) kept = hand_on-IsKept h res e kept
Step-IsKept _ _ (stops h e f g) kept = stop-IsKept h f g kept

Steps-IsKept : (a b : Handover) → Steps a b → IsKept a → IsKept b
Steps-IsKept _ _ (done h) kept = kept
Steps-IsKept _ _ (more a b c s ss) kept = Steps-IsKept b c ss (Step-IsKept a b s kept)

-- In every state that can be reached, what the miner found is what the executor was given, then the
-- result in the callback's hand, then the queue, in this order. And where no signal is outstanding
-- and the callback does not run, every result found has been handed on, in order and once each.
pub Steps-handed_on :
    (h : Handover)
    → Steps handover h
    → (h.found ≡ h.sent ++ (held h.in_hand ++ h.result_q))
      × (h.unsignalled ≡ false → h.pending ≡ false → h.draining ≡ false → h.sent ≡ h.found)
unfolding IsKept held
Steps-handed_on h reached =
    let kept = Steps-IsKept handover h reached handover-IsKept in
    (
      kept.0,
      λ a b c.
          let order =
            kept.0
            ∙ (ap (λ (o : Option MinerResult). h.sent ++ (held o ++ h.result_q)) (kept.1.0 c)
                ∙ ap (λ (xs : List MinerResult). h.sent ++ xs) (kept.1.1 a b c)) in
          sym (order ∙ append_nil h.sent),
    )

-- A later state in which nothing is left to hand on.
abbrev Emptied : Handover → Type 0
Emptied h =
    (h' : Handover) × (Steps h h' × (h'.result_q ≡ []) × (h'.in_hand ≡ none) × (h'.found ≡ h.found))

Emptied-Step : (a b : Handover) → Step a b → b.found ≡ a.found → Emptied b → Emptied a
Emptied-Step a b s same (c, (ss, empty, free, kept)) =
    (c, (more a b c s ss, empty, free, kept ∙ same))

drain :
    (q : List MinerResult) (h : Handover)
    → h.result_q ≡ q
    → h.draining ≡ true
    → h.in_hand ≡ none
    → Emptied h
unfolding pop_front hand_on
drain [] h queue running free = (h, (done h, queue, free, refl))
drain (res ∷ q) h queue running free =
    let taken = pop_front res q h in
    let given = hand_on res taken in
    Emptied-Step h taken (takes h res q running free queue) refl
      (Emptied-Step taken given (hands_on taken res refl) refl (drain q given refl running refl))

drain_held : (o : Option MinerResult) (h : Handover) → h.in_hand ≡ o → h.draining ≡ true → Emptied h
unfolding hand_on
drain_held none h free running = drain h.result_q h refl running free
drain_held (some res) h holds running =
    Emptied-Step h (hand_on res h) (hands_on h res holds) refl
      (drain h.result_q (hand_on res h) refl running refl)

wake_first : (h : Handover) → h.pending ≡ true → Emptied h
unfolding wake
wake_first h signal = elim (Bool-cases h.draining) [
  | inl running ↦ drain_held h.in_hand h refl running
  | inr quiet ↦
      Emptied-Step h (wake h) (wakes h signal quiet) refl (drain_held h.in_hand (wake h) refl refl)
]

kept-Emptied : (h : Handover) → IsKept h → Emptied h
unfolding IsKept async_send
kept-Emptied h (order, (idle, covered)) = elim (Bool-cases h.unsignalled) [
  | inl owed ↦ Emptied-Step h (async_send h) (signals h owed) refl (wake_first (async_send h) refl)
  | inr a ↦ elim (Bool-cases h.pending) [
    | inl signal ↦ wake_first h signal
    | inr b ↦ elim (Bool-cases h.draining) [
      | inl running ↦ drain_held h.in_hand h refl running
      | inr c ↦ (h, (done h, covered a b c, idle c, refl))
    ]
  ]
]

-- From every state that can be reached there are steps that end with every share found so far handed
-- on to the executor, in order, and no other share found meanwhile: no signal that was missed or merged
-- with another leaves one behind.
pub Steps-delivered :
    (h : Handover)
    → Steps handover h
    → (h' : Handover) × (Steps h h' × (h'.found ≡ h.found) × (h'.sent ≡ h.found))
unfolding IsKept held
Steps-delivered h reached =
    let kept = Steps-IsKept handover h reached handover-IsKept in
    let (h', (ss, empty, free, same)) = kept-Emptied h kept in
    let order = (Steps-IsKept h h' ss kept).0 in
    let all_sent =
      order
      ∙ (ap (λ (o : Option MinerResult). h'.sent ++ (held o ++ h'.result_q)) free
          ∙ (ap (λ (xs : List MinerResult). h'.sent ++ xs) empty ∙ append_nil h'.sent)) in
    (h', (ss, same, sym all_sent ∙ same))
