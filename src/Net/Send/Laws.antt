-- ===== src/Net/Send/Laws.antt =====
-- What becomes of a text that is sent, and of the four buffers.
use epic_miner.Common.{
  ℕ, zero, suc, ◌+◌, ◌≤◌, ◌<◌, ◌≡◌, refl, ◌↔◌, inl, inr, true, false, List, [], ◌∷◌, arith, none,
  some, if◌then◌else◌, length, set, get_elem?, Bool-cases, Option-cases,
}
use epic_miner.Net.Send.{SendBuf, Net, NetAction, uv_shutdown, do_shutdown, first_inactive}

-- How many buffers are in use.
unfoldable pub in_use : List SendBuf → ℕ
in_use [] = 0
in_use (b ∷ rest) = (if b.active then 1 else 0) + in_use rest

-- A buffer whose write is under way is in use.
abbrev pub Consistent : SendBuf → Type 0
Consistent b = b.writing ≡ true → b.active ≡ true

pub first_inactive-none : (bs : List SendBuf) → (first_inactive bs ≡ none) ↔ (in_use bs ≡ length bs)
unfolding first_inactive in_use
first_inactive-none [] = ground arith
first_inactive-none (b ∷ rest) =
    ground (arith, first_inactive-none rest, in_use-le rest, Option-cases (first_inactive rest))
  where
    in_use-le : (bs : List SendBuf) → in_use bs ≤ length bs
    in_use-le [] = omega arith
    in_use-le (b ∷ rest) = ground (arith, in_use-le rest)

pub first_inactive-some :
    (bs : List SendBuf) (i : ℕ)
    → first_inactive bs ≡ some i
    → (b : SendBuf) × (get_elem? bs i ≡ some b) × (b.active ≡ false) × (i < length bs)
unfolding first_inactive
first_inactive-some [] i e = absurd (cc)
first_inactive-some (b ∷ rest) i e = elim (Bool-cases b.active) [
  | inr free ↦ let first : i ≡ 0 = ground (arith, free) in rw first (b, refl, free, omega arith)
  | inl busy ↦ elim (Option-cases (first_inactive rest)) [
    | inl full ↦ absurd (ground (arith, busy, full))
    | inr (j, later) ↦
        let next : i ≡ suc j = ground (arith, busy, later) in
        let (c, at, free, lt) = first_inactive-some rest j later in
        rw next (c, at, free, omega arith)
  ]
]

pub in_use-set :
    (bs : List SendBuf) (i : ℕ) (b c : SendBuf)
    → get_elem? bs i ≡ some b
    → in_use (set bs i c) + (if b.active then 1 else 0) ≡ in_use bs + (if c.active then 1 else 0)
unfolding in_use
in_use-set [] i b c e = absurd (cc)
in_use-set (x ∷ bs) zero b c e = ground arith
in_use-set (x ∷ bs) (suc i) b c e = ground (arith, in_use-set bs i b c e)

-- do_shutdown asks libuv once: another call before the socket is closed does nothing.
pub do_shutdown_once :
    (n n' : Net) (acts : List NetAction)
    → do_shutdown n ≡ some (n', acts)
    → (n'.shutting_down ≡ true)
      × (do_shutdown n' ≡ some (n', []))
      × (acts ≡ (if n.shutting_down then [] else uv_shutdown ∷ []))
unfolding do_shutdown
do_shutdown_once n n' acts e = ground arith
