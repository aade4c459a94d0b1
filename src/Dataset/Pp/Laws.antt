-- ===== src/Dataset/Pp/Laws.antt =====
-- What the ProgPow dataset holds in the states that are reached.
use epic_miner.Common.{
  ℕ, suc, ◌≡◌, refl, sym, ap, subst, ◌∙◌, ◌≢◌, inl, inr, List, [], ◌∷◌, ◌++◌, arith, All, Option,
  none, some, ◌==◌, ==_iff, get_elem?, Bool-cases,
}
use epic_miner.Dataset.{invalid_id}
use epic_miner.Dataset.Pp.{
  Phase, locked, created, PpDataset, calculate_dataset, adjust_to_block, acquire, create, publish,
  Step, acquires, creates, publishes, reads, stops_reading, Reachable, starts, adjusts, steps,
}

-- An epoch that the executor has asked for.
abbrev pub Asked : List ℕ → ℕ → Type 0
Asked asked e = (i : ℕ) × (get_elem? asked i ≡ some e)

abbrev RunningAsked : List ℕ → Option Phase → Type 0
RunningAsked asked none = Unit
RunningAsked asked (some (locked e)) = Asked asked e
RunningAsked asked (some (created e)) = Asked asked e

-- What the running thread has done to the pointer.
abbrev Working : Option Phase → ℕ → Option ℕ → Type 0
Working none ready ptr = ready ≢ invalid_id → ptr ≡ some ready
Working (some (locked e)) ready ptr = Unit
Working (some (created e)) ready ptr = ptr ≡ some e

-- Only epochs that were asked for wait or run, and once one was asked for and no thread is left, one of
-- them is ready.
record IsSound (asked : List ℕ) (d : PpDataset) : Type 0 where
  works : Working d.running d.ready_id d.dataset_ptr
  excl : d.readers ≢ 0 → d.running ≡ none
  waiting_asked : All (Asked asked) d.waiting
  running_asked : RunningAsked asked d.running
  fresh : asked ≡ [] → d.ready_id ≡ d.loaded_id
  ready_asked : asked ≢ [] → d.waiting ≡ [] → d.running ≡ none → Asked asked d.ready_id

All-later : (x : ℕ) (asked es : List ℕ) → All (Asked asked) es → All (Asked (x ∷ asked)) es
All-later x asked [] h = tt
All-later x asked (e ∷ es) ((i, at), hs) = ((suc i, at), All-later x asked es hs)

All-snoc :
    (asked es : List ℕ) (e : ℕ)
    → All (Asked asked) es
    → Asked asked e
    → All (Asked asked) (es ++ e ∷ [])
All-snoc asked [] e h a = (a, tt)
All-snoc asked (x ∷ es) e (h, hs) a = (h, All-snoc asked es e hs a)

All-taken :
    (asked before others : List ℕ) (e : ℕ)
    → All (Asked asked) (before ++ e ∷ others)
    → Asked asked e × All (Asked asked) (before ++ others)
All-taken asked [] others e (h, hs) = (h, hs)
All-taken asked (x ∷ before) others e (h, hs) =
    let (taken, rest) = All-taken asked before others e hs in (taken, (h, rest))

RunningAsked-later :
    (x : ℕ) (asked : List ℕ) (running : Option Phase)
    → RunningAsked asked running
    → RunningAsked (x ∷ asked) running
RunningAsked-later x asked none h = tt
RunningAsked-later x asked (some (locked e)) (i, at) = (suc i, at)
RunningAsked-later x asked (some (created e)) (i, at) = (suc i, at)

snoc-nonempty : (xs : List ℕ) (e : ℕ) → xs ++ e ∷ [] ≡ [] → (A : Type 0) → A
snoc-nonempty [] e h A = absurd (cc (h))
snoc-nonempty (x ∷ xs) e h A = absurd (cc (h))

Working-invalid :
    (running : Option Phase) (ready : ℕ) (ptr : Option ℕ)
    → Working running ready ptr
    → Working running invalid_id ptr
Working-invalid none ready ptr works = λ valid. absurd (valid refl)
Working-invalid (some (locked x)) ready ptr works = works
Working-invalid (some (created x)) ready ptr works = works

Working-created :
    (running : Option Phase) (ready e : ℕ) (ptr : Option ℕ)
    → running ≡ some (created e)
    → Working running ready ptr
    → ptr ≡ some e
Working-created running ready e ptr r works = subst (λ x. Working x ready ptr) r works

Working-idle :
    (running : Option Phase) (ready : ℕ) (ptr : Option ℕ)
    → running ≡ none
    → Working running ready ptr
    → ready ≢ invalid_id
    → ptr ≡ some ready
Working-idle running ready ptr r works valid = (subst (λ x. Working x ready ptr) r works) valid

-- A request for the epoch that was asked for last changes nothing.
repeated-IsSound :
    (x : ℕ) (asked : List ℕ) (d : PpDataset)
    → d.loaded_id ≡ x
    → IsSound asked d
    → IsSound (x ∷ asked) d
repeated-IsSound x asked d same s = record {
  works = s.works;
  excl = s.excl;
  waiting_asked = All-later x asked d.waiting s.waiting_asked;
  running_asked = RunningAsked-later x asked d.running s.running_asked;
  fresh = λ e. absurd (cc (e));
  ready_asked = λ h w r. ready asked (s.fresh) (λ k. s.ready_asked k w r);
}
  where
    ready :
        (xs : List ℕ)
        → (xs ≡ [] → d.ready_id ≡ d.loaded_id)
        → (xs ≢ [] → Asked xs d.ready_id)
        → Asked (x ∷ xs) d.ready_id
    ready [] first later = (0, ap some (sym (first refl ∙ same)))
    ready (y ∷ xs) first later = let (i, at) = later (λ e. absurd (cc (e))) in (suc i, at)

adjust_to_block-IsSound :
    (f : ℕ → ℕ) (asked : List ℕ) (d : PpDataset) (block : ℕ)
    → IsSound asked d
    → IsSound (f block ∷ asked) (adjust_to_block f d block)
unfolding adjust_to_block calculate_dataset
adjust_to_block-IsSound f asked d block s = elim (Bool-cases (d.loaded_id == f block)) [
  | inl same ↦
      rw (adjust_to_block, same)
        (repeated-IsSound (f block) asked d ((==_iff d.loaded_id (f block)).0 same) s)
  | inr new ↦
      let started : IsSound (f block ∷ asked) (calculate_dataset d (f block)) = record {
        works = Working-invalid d.running d.ready_id d.dataset_ptr s.works;
        excl = s.excl;
        waiting_asked =
            All-snoc (f block ∷ asked) d.waiting (f block)
              (All-later (f block) asked d.waiting s.waiting_asked) (0, refl);
        running_asked = RunningAsked-later (f block) asked d.running s.running_asked;
        fresh = λ e. absurd (cc (e));
        ready_asked =
            λ h w r. snoc-nonempty d.waiting (f block) w (Asked (f block ∷ asked) invalid_id);
      } in
      rw (adjust_to_block, new) started
]

Step-IsSound : (asked : List ℕ) (d d' : PpDataset) → Step d d' → IsSound asked d → IsSound asked d'
unfolding acquire create publish
Step-IsSound asked _ _ (acquires d e before others w r idle) s =
    let (taken, rest) =
      All-taken asked before others e (subst (λ xs. All (Asked asked) xs) w s.waiting_asked) in
    record {
      works = tt;
      excl = λ busy. absurd (busy idle);
      waiting_asked = rest;
      running_asked = taken;
      fresh = s.fresh;
      ready_asked = λ h x none_runs. absurd (cc (none_runs));
    }
Step-IsSound asked _ _ (creates d e r) s = record {
  works = refl;
  excl = λ busy. absurd (cc (r, s.excl busy));
  waiting_asked = s.waiting_asked;
  running_asked = subst (λ x. RunningAsked asked x) r s.running_asked;
  fresh = s.fresh;
  ready_asked = λ h x none_runs. absurd (cc (none_runs));
}
Step-IsSound asked _ _ (publishes d e r) s =
    let taken : Asked asked e = subst (λ x. RunningAsked asked x) r s.running_asked in
    record {
      works = λ valid. Working-created d.running d.ready_id e d.dataset_ptr r s.works;
      excl = λ busy. refl;
      waiting_asked = s.waiting_asked;
      running_asked = tt;
      fresh = λ empty. absurd (cc (subst (λ xs. get_elem? xs taken.0 ≡ some e) empty taken.1));
      ready_asked = λ h x none_runs. taken;
    }
Step-IsSound asked _ _ (reads d r) s = record {
  works = s.works;
  excl = λ h. r;
  waiting_asked = s.waiting_asked;
  running_asked = s.running_asked;
  fresh = s.fresh;
  ready_asked = s.ready_asked;
}
Step-IsSound asked _ _ (stops_reading d) s = record {
  works = s.works;
  excl = λ h. s.excl (λ none_left. h (omega (arith, none_left)));
  waiting_asked = s.waiting_asked;
  running_asked = s.running_asked;
  fresh = s.fresh;
  ready_asked = s.ready_asked;
}

Reachable-IsSound :
    (f : ℕ → ℕ) (asked : List ℕ) (d : PpDataset) → Reachable f asked d → IsSound asked d
Reachable-IsSound f _ _ starts = record {
  works = λ valid. absurd (valid refl);
  excl = λ busy. refl;
  waiting_asked = tt;
  running_asked = tt;
  fresh = λ e. refl;
  ready_asked = λ some_asked w r. absurd (some_asked refl);
}
Reachable-IsSound f _ _ (adjusts asked d block r) =
    adjust_to_block-IsSound f asked d block (Reachable-IsSound f asked d r)
Reachable-IsSound f _ _ (steps asked d d' r s) =
    Step-IsSound asked d d' s (Reachable-IsSound f asked d r)

-- In every state that the executor, the dataset threads and the miners reach, whatever thread is given
-- the lock: a miner that holds the lock, and finds an id in ready_id, finds the context of that epoch
-- in dataset_ptr; and when an epoch was asked for and no thread waits or runs, ready_id is an epoch
-- that was asked for, and its context is there unless it is the invalid id.
pub Reachable-ready :
    (f : ℕ → ℕ) (asked : List ℕ) (d : PpDataset)
    → Reachable f asked d
    → (d.readers ≢ 0 → d.ready_id ≢ invalid_id → d.dataset_ptr ≡ some d.ready_id)
      × (asked ≢ []
          → d.waiting ≡ []
          → d.running ≡ none
          → Asked asked d.ready_id × (d.ready_id ≢ invalid_id → d.dataset_ptr ≡ some d.ready_id))
Reachable-ready f asked d r =
    let s = Reachable-IsSound f asked d r in
    (
      λ busy valid. Working-idle d.running d.ready_id d.dataset_ptr (s.excl busy) s.works valid,
      λ some_asked w idle. (
        s.ready_asked some_asked w idle,
        λ valid. Working-idle d.running d.ready_id d.dataset_ptr idle s.works valid,
      ),
    )

pub adjust_to_block-loaded :
    (f : ℕ → ℕ) (d : PpDataset) (block : ℕ) → (adjust_to_block f d block).loaded_id ≡ f block
unfolding adjust_to_block calculate_dataset
adjust_to_block-loaded f d block = ground arith
