-- ===== src/Console/Printer/Tests.antt =====
-- A green word and a number.
use epic_miner.Common.{◌≡◌, refl, true, false, List, [], ◌∷◌, ◌++◌, none, some, codes, replicate}
use epic_miner.Console.Printer.{
  OutColours, Printer, colour_codes, reset_codes, set_colour, reset_colour, open_logfile, put, Arg,
  colour, text, parse_print_arg, parse_print, print, print_str, print_str_colour, print_msg,
  print_dbg,
}

abbrev args : List Arg
args = colour OutColours.k_green ∷ text (codes "ok ") ∷ text (codes "7") ∷ []

abbrev screen : Printer
screen = record { stdout = []; logfile = none }

written :
    (print (codes "t ") args screen ≡ record {
      stdout = codes "t " ++ (colour_codes OutColours.k_green ++ (codes "ok 7\n" ++ reset_codes));
      logfile = none;
    })
    × (print_str_colour OutColours.k_none (codes "a") screen
        ≡ record { stdout = codes "a" ++ reset_codes; logfile = none })
    × (print_msg (codes "t ") (codes "b") screen
        ≡ record { stdout = codes "t b\n"; logfile = none })
    × (print_msg (codes "t ") (replicate 1020 0) screen ≡ screen)
    × (open_logfile true screen ≡ (record screen { logfile = some [] }, true))
unfolding print print_str print_str_colour print_msg parse_print parse_print_arg put reset_colour
    set_colour colour_codes open_logfile
written = (refl, refl, refl, refl, refl)

debugged :
    (print_dbg true (codes "t ") (codes "b") screen
      ≡ record { stdout = codes "t b\n"; logfile = none })
    × (print_dbg false (codes "t ") (codes "b") screen ≡ screen)
unfolding print_dbg print_msg print_str put
debugged = (refl, refl)
