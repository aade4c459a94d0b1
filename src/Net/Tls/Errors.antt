-- ===== src/Net/Tls/Errors.antt =====
-- tls_interface.cpp: parse_canonical_ssl_error, and the text that get_tls_error reports.
pub mod Laws
use epic_miner.Common.{
  ℕ, zero, suc, ◌≡◌, ◌≢◌, refl, ap, ◌==◌, Bool, true, false, Bool-cases, inl, inr, List, [], ◌∷◌,
  ◌++◌, All, Option, none, some, if◌then◌else◌, get_elem?, codes, length, arith,
}

-- strchr: the text up to the first colon, and the text behind it.
pub cut_colon : List ℕ → Option (List ℕ × List ℕ)
cut_colon [] = none
cut_colon (c ∷ s) =
    let rest = cut_colon s in
    if c == b':'
    then some ([], s)
    else elim rest [ none ↦ none | some (tok, later) ↦ some (c ∷ tok, later) ]

-- strcspn(ptr, "\n")
pub until_newline : List ℕ → List ℕ
until_newline [] = []
until_newline (c ∷ s) = let rest = until_newline s in if c == b'\n' then [] else c ∷ rest

-- `n` tokens that end with a colon, and the last.
pub tokens : ℕ → List ℕ → Option (List (List ℕ))
unfolding cut_colon until_newline
tokens zero s = some (until_newline s ∷ [])
tokens (suc n) s = elim (cut_colon s) [
  | none ↦ none
  | some (tok, later) ↦ elim (tokens n later) [ none ↦ none | some toks ↦ some (tok ∷ toks) ]
]

-- The text is taken as ended by a NUL.
pub parse_canonical_ssl_error : List ℕ → Option (List (List ℕ))
unfolding tokens
parse_canonical_ssl_error s = tokens 8 s

-- tok[5] is the reason.
pub tls_error_text : List ℕ → List ℕ
unfolding parse_canonical_ssl_error
tls_error_text printed = elim (parse_canonical_ssl_error printed) [
  | none ↦ codes "Unknown TLS error."
  | some toks ↦ elim (get_elem? toks 5) [ none ↦ codes "Unknown TLS error." | some reason ↦ reason ]
]
