-- ===== src/Console/Printer.antt =====
-- console.hpp and console.cpp (POSIX): the printer. stdout and the log file are the bytes written to
-- them; buffering is left out. What strftime and snprintf make of a time or a number is an argument.
pub mod Laws
mod Tests
use epic_miner.Common.{
  ℕ, ◌+◌, ◌-◌, ◌<◌, Bool, true, false, List, [], ◌∷◌, ◌++◌, Option, none, some, ltb, leb,
  if◌then◌else◌, length, take, codes, c_str,
}

pub data OutColours : Type 0 where
  k_none k_white k_magenta k_cyan k_yellow k_blue k_green k_red : OutColours

-- `logfile` is none where no file is open.
pub record Printer : Type 0 where
  pub stdout : List ℕ
  pub logfile : Option (List ℕ)

-- The escape sequence for bold text in a colour.
abbrev bold : ℕ → List ℕ
bold digit = 27 ∷ b'[' ∷ b'1' ∷ b';' ∷ b'3' ∷ digit ∷ b'm' ∷ []

pub colour_codes : OutColours → List ℕ
colour_codes OutColours.k_red = bold b'1'
colour_codes OutColours.k_green = bold b'2'
colour_codes OutColours.k_blue = bold b'4'
colour_codes OutColours.k_yellow = bold b'3'
colour_codes OutColours.k_cyan = bold b'6'
colour_codes OutColours.k_magenta = bold b'5'
colour_codes OutColours.k_white = bold b'7'
colour_codes OutColours.k_none = []

abbrev pub reset_codes : List ℕ
reset_codes = 27 ∷ b'[' ∷ b'0' ∷ b'm' ∷ []

pub set_colour : OutColours → Printer → Printer
unfolding colour_codes
set_colour cl p = record p { stdout = p.stdout ++ colour_codes cl }

pub reset_colour : Printer → Printer
reset_colour p = record p { stdout = p.stdout ++ reset_codes }

-- The log file begins empty; `opened` says whether fopen gives one.
pub open_logfile : Bool → Printer → Printer × Bool
open_logfile opened p =
    if opened then (record p { logfile = some [] }, true) else (record p { logfile = none }, false)

-- fputs to stdout, and to the log file where there is one.
pub put : List ℕ → Printer → Printer
put str p = record p {
  stdout = p.stdout ++ str;
  logfile = elim p.logfile [ none ↦ none | some log ↦ some (log ++ str) ];
}

-- An argument of print: a colour, or the text that is printed for it.
pub data Arg : Type 0 where
  colour : OutColours → Arg
  text : List ℕ → Arg

pub parse_print_arg : Arg → Printer → Printer
unfolding set_colour put
parse_print_arg (colour cl) p = set_colour cl p
parse_print_arg (text str) p = put str p

pub parse_print : List Arg → Printer → Printer
unfolding parse_print_arg put
parse_print [] p = put (b'\n' ∷ []) p
parse_print (arg ∷ args) p = parse_print args (parse_print_arg arg p)

pub print_nt : List Arg → Printer → Printer
unfolding parse_print reset_colour
print_nt args p = reset_colour (parse_print args p)

-- `stime` is what strftime prints.
pub print : List ℕ → List Arg → Printer → Printer
unfolding parse_print reset_colour put
print stime args p = reset_colour (parse_print args (put stime p))

pub print_str : List ℕ → Printer → Printer
unfolding put
print_str str p = put str p

pub print_str_colour : OutColours → List ℕ → Printer → Printer
unfolding put set_colour reset_colour
print_str_colour cl str p = reset_colour (put str (set_colour cl p))

abbrev pub buf_size : ℕ
buf_size = 1024

-- `formatted` is the whole text of the message, which vsnprintf cuts to the room in `buf`. A text
-- that fills the buffer is not printed.
pub print_msg : List ℕ → List ℕ → Printer → Printer
unfolding print_str
print_msg stime formatted p =
    let buf = stime ++ take (buf_size - length stime - 1) formatted in
    if leb buf_size (length buf + 2) then p else print_str (buf ++ b'\n' ∷ []) p

-- print_dbg, which is print_msg's code where IS_DEBUG is defined, and empty otherwise.
pub print_dbg : Bool → List ℕ → List ℕ → Printer → Printer
unfolding print_msg
print_dbg is_debug stime formatted p = if is_debug then print_msg stime formatted p else p
