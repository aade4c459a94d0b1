-- ===== src/Net/Address/Laws.antt =====
-- What set_hostname makes of host:port and of [host]:port, and which DNS record is chosen.
use native.Mathlib.Nat.{mod-lt}
use epic_miner.Common.{
  ℕ, zero, suc, ◌+◌, ◌-◌, ◌%◌, ◌≤◌, ◌<◌, ◌≡◌, refl, ap, ◌↔◌, ◌∙◌, ◌≢◌, ◌⊎◌, inl, inr, false, List,
  [], ◌∷◌, ◌++◌, arith, none, some, leb, ==_iff, length, length-append, take, drop, set, get_or,
  c_str, get_elem?, All, Bool-cases, Option-cases,
}
use epic_miner.Net.Address.{
  strrchr, address, host_of, set_hostname, Family, inet, inet6, AddrInfo, ipv4_of, ipv6_of, pick,
  choose,
}

strrchr-append :
    (h p : List ℕ) (c : ℕ) → strrchr p c ≡ none → strrchr (h ++ c ∷ p) c ≡ some (length h)
unfolding strrchr
strrchr-append [] p c e = ground (arith, e, ==_iff c c)
strrchr-append (x ∷ h) p c e = ground (arith, strrchr-append h p c e)

take-append : (h p : List ℕ) → take (length h) (h ++ p) ≡ h
take-append [] p = refl
take-append (x ∷ h) p = ap (◌∷◌ x) (take-append h p)

drop-append_suc : (h p : List ℕ) (c k : ℕ) → k ≡ suc (length h) → drop k (h ++ c ∷ p) ≡ p
drop-append_suc h p c zero e = absurd (omega arith)
drop-append_suc [] p c (suc zero) e = refl
drop-append_suc [] p c (suc (suc k)) e = absurd (omega arith)
drop-append_suc (x ∷ h) p c (suc k) e = drop-append_suc h p c k (omega arith)

-- The text splits at its last colon.
set_hostname_split :
    (h p : List ℕ)
    → strrchr p b':' ≡ none
    → length h + length p < 255
    → set_hostname (h ++ b':' ∷ p) ≡ address (host_of h) p
unfolding set_hostname
set_hostname_split h p e small =
    let size : leb 256 (length (h ++ b':' ∷ p)) ≡ false =
      ground (arith, length-append h (b':' ∷ p)) in
    let found = strrchr-append h p b':' e in
    rw (size, set_hostname)
      (rw (found, set_hostname)
        (rw (take-append h (b':' ∷ p), drop-append_suc h p b':' (length h + 1) (omega arith))))

c_str-nul : (s r : List ℕ) → All (λ x. x ≢ 0) s → c_str (s ++ 0 ∷ r) ≡ s
unfolding c_str
c_str-nul [] r h = refl
c_str-nul (x ∷ s) r h = ground (arith, h.0, c_str-nul s r h.1, ==_iff x 0)

set-append : (s : List ℕ) (k : ℕ) → k ≡ length s → set (s ++ 0 ∷ []) k 0 ≡ s ++ 0 ∷ []
set-append [] zero e = refl
set-append [] (suc k) e = absurd (omega arith)
set-append (x ∷ s) zero e = absurd (omega arith)
set-append (x ∷ s) (suc k) e = ap (◌∷◌ x) (set-append s k (omega arith))

get_or-last : (s : List ℕ) (c k : ℕ) → k ≡ length s → get_or (s ++ c ∷ []) k 0 ≡ c
get_or-last [] c zero e = refl
get_or-last [] c (suc k) e = absurd (omega arith)
get_or-last (x ∷ s) c zero e = absurd (omega arith)
get_or-last (x ∷ s) c (suc k) e = get_or-last s c k (omega arith)

-- A plain address h:p of less than 256 bytes, with no colon in p, and no opening bracket before h:
-- the host is what stands before the last colon, the port what stands after it.
pub set_hostname_plain :
    (h p : List ℕ)
    → strrchr p b':' ≡ none
    → length h + length p < 255
    → get_or h 0 0 ≢ b'['
    → set_hostname (h ++ b':' ∷ p) ≡ address h p
unfolding host_of
set_hostname_plain h p e small plain =
    set_hostname_split h p e small ∙ ap (λ x. address x p) (ground (arith, plain))

host_of_bracketed :
    (h : List ℕ) (k : ℕ)
    → All (λ x. x ≢ 0) (h ++ b']' ∷ [])
    → k ≡ length (b'[' ∷ h ++ b']' ∷ []) - 1
    → host_of (b'[' ∷ h ++ b']' ∷ []) ≡ h ++ b']' ∷ []
unfolding host_of
host_of_bracketed h k text e =
    let s = h ++ b']' ∷ [] in
    let last : length (b'[' ∷ s) - 1 ≡ length (b'[' ∷ h) =
      omega (arith, length-append h (b']' ∷ [])) in
    let size : length (b'[' ∷ s) - 1 ≡ length s = omega arith in
    let cleared = set-append s (length (b'[' ∷ s) - 1) size in
    let closing = get_or-last (b'[' ∷ h) b']' (length (b'[' ∷ s) - 1) last in
    rw closing (rw cleared (c_str-nul s [] text))

All-snoc : (h : List ℕ) (c : ℕ) → All (λ x. x ≢ 0) h → c ≢ 0 → All (λ x. x ≢ 0) (h ++ c ∷ [])
All-snoc [] c h n = (n, tt)
All-snoc (x ∷ xs) c h n = (h.0, All-snoc xs c h.1 n)

-- A bracketed address [h]:p of less than 256 bytes, with no colon in p and no NUL in h, loses its
-- opening bracket only: the host that is kept is h with the
-- closing bracket behind it.
pub set_hostname_bracketed :
    (h p : List ℕ)
    → strrchr p b':' ≡ none
    → length h + length p < 253
    → All (λ x. x ≢ 0) h
    → set_hostname ((b'[' ∷ h ++ b']' ∷ []) ++ b':' ∷ p) ≡ address (h ++ b']' ∷ []) p
set_hostname_bracketed h p e small text =
    let host = b'[' ∷ h ++ b']' ∷ [] in
    let fits : length host + length p < 255 = omega (arith, length-append h (b']' ∷ [])) in
    set_hostname_split host p e fits
    ∙ ap (λ x. address x p)
        (host_of_bracketed h (length host - 1) (All-snoc h b']' text (omega arith)) refl)

-- An address that is too long, or has no colon, is refused.
pub set_hostname_bad :
    (s : List ℕ)
    → ((h p : List ℕ) → set_hostname s ≢ address h p) ↔ ((256 ≤ length s) ⊎ (strrchr s b':' ≡ none))
unfolding set_hostname
set_hostname_bad s = (
  λ none_. elim (Bool-cases (leb 256 (length s))) [
    | inl long ↦ inl (ground arith)
    | inr short ↦ elim (Option-cases (strrchr s b':')) [
      | inl missing ↦ inr missing
      | inr (cl, found) ↦ absurd (
          none_ (host_of (take cl s)) (drop (cl + 1) s)
            (rw (short, set_hostname) (rw (found, set_hostname) refl)))
    ]
  ],
  λ either h p e. ground arith,
)

-- A record of the wanted family.
abbrev pub IsOf : Family → AddrInfo → Type 0
IsOf f a = a.family ≡ f

ipv4_of-IsOf : (res : List AddrInfo) → All (IsOf inet) (ipv4_of res)
unfolding ipv4_of
ipv4_of-IsOf [] = tt
ipv4_of-IsOf (a ∷ rest) = ground (arith, ipv4_of-IsOf rest)

ipv6_of-IsOf : (res : List AddrInfo) → All (IsOf inet6) (ipv6_of res)
unfolding ipv6_of
ipv6_of-IsOf [] = tt
ipv6_of-IsOf (a ∷ rest) = ground (arith, ipv6_of-IsOf rest)

get-IsOf :
    (f : Family) (xs : List AddrInfo) (i : ℕ) (a : AddrInfo)
    → All (IsOf f) xs
    → get_elem? xs i ≡ some a
    → a.family ≡ f
get-IsOf f [] i a h e = absurd (cc)
get-IsOf f (x ∷ xs) zero a h e = ground (arith, h.0)
get-IsOf f (x ∷ xs) (suc i) a h e = get-IsOf f xs i a h.1 e

List-cases :
    (xs : List AddrInfo) → (xs ≡ []) ⊎ ((y : AddrInfo) × (ys : List AddrInfo) × (xs ≡ y ∷ ys))
List-cases [] = inl refl
List-cases (y ∷ ys) = inr (y, ys, refl)

pick-some :
    (x : AddrInfo) (xs : List AddrInfo) (r : ℕ) → (a : AddrInfo) × (pick (x ∷ xs) r ≡ some a)
unfolding pick
pick-some x xs r =
    let i = r % length (x ∷ xs) in
    elim (Option-cases (get_elem? (x ∷ xs) i)) [
      | inr found ↦ found
      | inl out ↦ absurd (in_range (x ∷ xs) i (mod-lt r (omega arith)) out)
    ]
  where
    in_range : (ys : List AddrInfo) (i : ℕ) → i < length ys → get_elem? ys i ≢ none
    in_range [] i h e = absurd (omega arith)
    in_range (y ∷ ys) zero h e = cc
    in_range (y ∷ ys) (suc i) h e = in_range ys i (omega arith) e

-- The record that is connected to: an IPv4 record if there is one, whatever rand() gives, otherwise
-- an IPv6 record, and none exactly where there is neither.
pub choose_lem :
    (res : List AddrInfo) (r : ℕ)
    → (ipv4_of res ≢ [] → (a : AddrInfo) × (choose res r ≡ some a) × (a.family ≡ inet))
      × (ipv4_of res ≡ []
          → ipv6_of res ≢ []
          → (a : AddrInfo) × (choose res r ≡ some a) × (a.family ≡ inet6))
      × (ipv4_of res ≡ [] → ipv6_of res ≡ [] → choose res r ≡ none)
unfolding choose
choose_lem res r = (
  λ v4. elim (List-cases (ipv4_of res)) [
    | inl empty ↦ absurd (v4 empty)
    | inr (y, ys, e) ↦
        let (a, got) = pick-some y ys r in
        (a, rw (e, choose) (rw e got), family_of inet (y ∷ ys) a (rw e at (ipv4_of-IsOf res)) got)
  ],
  λ no4 v6. elim (List-cases (ipv6_of res)) [
    | inl empty ↦ absurd (v6 empty)
    | inr (y, ys, e) ↦
        let (a, got) = pick-some y ys r in
        (
          a,
          rw (no4, choose) (rw (e, choose) (rw e got)),
          family_of inet6 (y ∷ ys) a (rw e at (ipv6_of-IsOf res)) got,
        )
  ],
  λ no4 no6. rw (no4, choose) (rw (no6, choose)),
)
  where
    family_of :
        (f : Family) (xs : List AddrInfo) (a : AddrInfo)
        → All (IsOf f) xs
        → pick xs r ≡ some a
        → a.family ≡ f
    family_of f xs a h e = unfold pick in get-IsOf f xs (r % length xs) a h e
