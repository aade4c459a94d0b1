-- ===== src/Pool/Receive/Tests.antt =====
-- Reads of one line and of two, under a parser that takes digits only.
use epic_miner.Common.{
  ℕ, ◌≡◌, refl, ◌&&◌, Bool, true, false, List, [], ◌∷◌, ◌++◌, arith, Option, none, some, codes,
  length, if◌then◌else◌, leb,
}
use epic_miner.Json.{Value, uint}
use epic_miner.Pool.State.{net_on_error}
use epic_miner.Pool.Receive.{net_on_data_recv}
use epic_miner.Pool.Receive.Laws.{Ends, net_on_data_recv_lem, two_lines_refused}
use epic_miner.Pool.Samples.{sample_pool}

digits_only : List ℕ → Bool
digits_only [] = true
digits_only (c ∷ s) = leb b'0' c && leb c b'9' && digits_only s

-- Of a document it keeps only that it is a number.
parse_digits : List ℕ → List ℕ × Option Value
unfolding digits_only
parse_digits s = (s, if digits_only s then some (uint 1) else none)

-- A number and its newline: no object.
net_on_data_recv_lem_example :
    Ends parse_digits sample_pool
      (b'1' ∷ b'\n' ∷ b'2' ∷ [])
      3
      5
      (net_on_data_recv parse_digits sample_pool (b'1' ∷ b'\n' ∷ b'2' ∷ []) 3 5)
unfolding parse_digits
net_on_data_recv_lem_example =
    net_on_data_recv_lem parse_digits sample_pool (b'1' ∷ b'\n' ∷ b'2' ∷ []) 3 5 (λ s. refl)
      (omega arith)

no_newline : (x y : List ℕ) → digits_only (x ++ b'\n' ∷ y) ≡ false
unfolding digits_only
no_newline [] y = refl
no_newline (c ∷ x) y = ground (arith, no_newline x y)

two_lines_refused_example :
    let input = (codes "1" ++ b'\n' ∷ codes "2") ++ b'\n' ∷ [] in
    (buffer : List ℕ) × (net_on_data_recv parse_digits sample_pool input (length input) 5
      ≡ some (record {
        buffer = buffer;
        reaction = net_on_error sample_pool (codes "JSON parse error");
        consumed = none;
      }))
unfolding parse_digits digits_only
two_lines_refused_example =
    two_lines_refused parse_digits sample_pool (codes "1") (codes "2") 5
      (λ x y a b. rw (no_newline x y) refl) (uint 1, refl) (uint 1, refl)
