-- ===== src/Misc/Hex/Tests.antt =====
-- Hex codec runs, and its theorems at concrete inputs.
use epic_miner.Common.{◌≡◌, refl, true, false, [], ◌∷◌, ◌++◌, arith, codes}
use epic_miner.Misc.Hex.{hex2bin, bin2hex}
use epic_miner.Misc.Hex.Laws.{hex2bin-bin2hex}

bin2hex_runs : bin2hex (0x0a ∷ 0xff ∷ []) 2 ≡ codes "0aff" ++ 0 ∷ []
unfolding bin2hex
bin2hex_runs = refl

hex2bin_runs : hex2bin (codes "0AfF") 4 (1 ∷ 2 ∷ 3 ∷ []) ≡ (true, 0x0a ∷ 0xff ∷ 3 ∷ [])
unfolding hex2bin
hex2bin_runs = refl

-- The byte of a bad pair is written before the error is seen.
hex2bin_stops : hex2bin (codes "0A0g11") 6 (1 ∷ 2 ∷ 3 ∷ []) ≡ (false, 0x0a ∷ 0 ∷ 3 ∷ [])
unfolding hex2bin
hex2bin_stops = refl

hex2bin-bin2hex_example :
    hex2bin (bin2hex (0x0a ∷ 0xff ∷ []) 2) 4 (1 ∷ 2 ∷ 3 ∷ []) ≡ (true, 0x0a ∷ 0xff ∷ 3 ∷ [])
hex2bin-bin2hex_example =
    hex2bin-bin2hex (0x0a ∷ 0xff ∷ []) (1 ∷ 2 ∷ 3 ∷ []) (omega arith) (omega arith)
