-- ===== src/Console/Windows/Tests.antt =====
-- The colours with the flags 4, 2, 1 and 8, and the end of the program.
use epic_miner.Common.{◌≡◌, refl, [], ◌∷◌}
use epic_miner.Console.Printer.{OutColours}
use epic_miner.Console.Windows.{colour_attr, reset_attr, win_exit, exit}

colours :
    (colour_attr 4 2 1 8 OutColours.k_white ≡ 15)
    × (colour_attr 4 2 1 8 OutColours.k_yellow ≡ 14)
    × (colour_attr 4 2 1 8 OutColours.k_none ≡ 0)
    × (reset_attr 4 2 1 8 ≡ 7)
unfolding colour_attr reset_attr
colours = (refl, refl, refl, refl)

ends_at_once : win_exit 5 1 ≡ exit 1 ∷ []
unfolding win_exit
ends_at_once = refl
