-- ===== src/Net/Tls/Errors/Laws.antt =====
-- The parser of OpenSSL's error lines takes apart what colons put together.
use epic_miner.Common.{
  ℕ, ◌≡◌, refl, ap, ◌==◌, false, List, [], ◌∷◌, ◌++◌, All, Option, none, some, get_elem?, codes,
  length,
}
use epic_miner.Net.Tls.Errors.{
  cut_colon, until_newline, tokens, parse_canonical_ssl_error, tls_error_text,
}

-- Tokens that each end with a colon, then a last one.
pub join : List (List ℕ) → List ℕ → List ℕ
join [] tail = tail
join (tok ∷ toks) tail = tok ++ b':' ∷ join toks tail

-- A text without a byte.
abbrev pub Without : ℕ → List ℕ → Type 0
Without c = All (λ x. (x == c) ≡ false)

cut_colon-join :
    (tok rest : List ℕ) → Without b':' tok → cut_colon (tok ++ b':' ∷ rest) ≡ some (tok, rest)
unfolding cut_colon
cut_colon-join [] rest plain = refl
cut_colon-join (c ∷ tok) rest (other, plain) = rw (other) (rw (cut_colon-join tok rest plain) refl)

until_newline-plain : (tail : List ℕ) → Without b'\n' tail → until_newline tail ≡ tail
unfolding until_newline
until_newline-plain [] plain = refl
until_newline-plain (c ∷ tail) (other, plain) =
    rw (other) (ap (◌∷◌ c) (until_newline-plain tail plain))

tokens-join :
    (toks : List (List ℕ)) (tail : List ℕ)
    → All (Without b':') toks
    → Without b'\n' tail
    → tokens (length toks) (join toks tail) ≡ some (toks ++ tail ∷ [])
unfolding tokens join
tokens-join [] tail plain ends =
    ap (λ (xs : List ℕ). some (xs ∷ [])) (until_newline-plain tail ends)
tokens-join (tok ∷ toks) tail (first, plain) ends =
    rw (tokens, cut_colon-join tok (join toks tail) first)
      (rw (tokens-join toks tail plain ends) refl)

-- parse_canonical_ssl_error of eight tokens without a colon, put together by colons, and a rest
-- without a newline gives the nine back; and what get_tls_error reports is the sixth.
pub parse_canonical_ssl_error-join :
    (a b c d e reason g h tail : List ℕ)
    → let toks = a ∷ b ∷ c ∷ d ∷ e ∷ reason ∷ g ∷ h ∷ [] in
      All (Without b':') toks
      → Without b'\n' tail
      → (parse_canonical_ssl_error (join toks tail) ≡ some (toks ++ tail ∷ []))
        × (tls_error_text (join toks tail) ≡ reason)
unfolding parse_canonical_ssl_error tls_error_text
parse_canonical_ssl_error-join a b c d e reason g h tail plain ends =
    let toks : List (List ℕ) = a ∷ b ∷ c ∷ d ∷ e ∷ reason ∷ g ∷ h ∷ [] in
    let parsed : tokens 8 (join toks tail) ≡ some (toks ++ tail ∷ []) =
      tokens-join toks tail plain ends in
    (parsed, reported (parse_canonical_ssl_error (join toks tail)) parsed)
  where
    reported :
        (r : Option (List (List ℕ)))
        → r ≡ some ((a ∷ b ∷ c ∷ d ∷ e ∷ reason ∷ g ∷ h ∷ []) ++ tail ∷ [])
        → elim r [
          | none ↦ codes "Unknown TLS error."
          | some toks ↦ elim (get_elem? toks 5) [
            | none ↦ codes "Unknown TLS error."
            | some reason ↦ reason
          ]
        ]
          ≡ reason
    reported r e' = rw (e') refl
