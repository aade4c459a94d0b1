-- ===== src/Config/File.antt =====
-- jconf.cpp: read_file, on the bytes of the file; `none` is a file that cannot be read.
use epic_miner.Common.{
  ℕ, ◌&&◌, List, [], ◌∷◌, ◌++◌, Option, none, some, ltb, ◌==◌, if◌then◌else◌, length,
}

-- What read_file and parse_config refuse, each with its message on stderr.
pub data ConfigError : Type 0 where
  cannot_read too_short parse_error not_object out_of_order no_pools pool_not_object : ConfigError
  missing_value unexpected_type not_unsigned not_u16bit : List ℕ → ConfigError
  pool_missing pool_unexpected_type : ℕ → List ℕ → ConfigError

pub data Checked {ℓ} (A : Type ℓ) : Type ℓ where
  ok : A → Checked A
  refused : ConfigError → Checked A

-- The first byte order mark, if there is one, becomes three spaces.
unfoldable pub blank_bom : List ℕ → List ℕ
blank_bom (a ∷ b ∷ c ∷ rest) =
    let later = blank_bom (b ∷ c ∷ rest) in
    if a == 0xef && (b == 0xbb && c == 0xbf) then b' ' ∷ b' ' ∷ b' ' ∷ rest else a ∷ later
blank_bom short = short

unfoldable pub read_file : Option (List ℕ) → Checked (List ℕ)
unfolding blank_bom
read_file none = refused cannot_read
read_file (some contents) =
    let ret = b'{' ∷ contents ++ b'}' ∷ [] in
    if ltb (length ret) 8 then refused too_short else ok (blank_bom ret)
