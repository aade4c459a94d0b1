-- ===== src/Console/Windows.antt =====
-- console.cpp on Windows: the colours and win_exit. The four flags of Windows.h are arguments.
mod Tests
use epic_miner.Common.{ℕ, bit_or, Bool, List, [], ◌∷◌, ◌==◌, if◌then◌else◌, codes}
use epic_miner.Console.Printer.{OutColours}

module _ (foreground_red foreground_green foreground_blue foreground_intensity : ℕ) where
  -- The attribute of set_colour.
  pub colour_attr : OutColours → ℕ
  colour_attr OutColours.k_red = bit_or foreground_red foreground_intensity
  colour_attr OutColours.k_green = bit_or foreground_green foreground_intensity
  colour_attr OutColours.k_blue = bit_or foreground_blue foreground_intensity
  colour_attr OutColours.k_yellow =
      bit_or (bit_or foreground_red foreground_green) foreground_intensity
  colour_attr OutColours.k_cyan =
      bit_or (bit_or foreground_blue foreground_green) foreground_intensity
  colour_attr OutColours.k_magenta =
      bit_or (bit_or foreground_blue foreground_red) foreground_intensity
  colour_attr OutColours.k_white =
      bit_or (bit_or (bit_or foreground_blue foreground_red) foreground_green) foreground_intensity
  colour_attr OutColours.k_none = 0

  pub reset_attr : ℕ
  reset_attr = bit_or (bit_or foreground_red foreground_green) foreground_blue

pub data Exit : Type 0 where
  print_str : List ℕ → Exit
  get_key : Exit
  exit : ℕ → Exit

-- `env_size` is the size that getenv_s gives for EPIC_NOWAIT.
pub win_exit : ℕ → ℕ → List Exit
win_exit env_size code =
    if env_size == 0
    then print_str (codes "Press any key to exit.") ∷ get_key ∷ exit code ∷ []
    else exit code ∷ []
