-- ===== src/Console/Printer/Laws.antt =====
-- The log file holds what the terminal shows, without the colours.
use epic_miner.Common.{
  ℕ, ◌≡◌, refl, sym, ap, ap₂, ◌∙◌, ◌==◌, Bool, true, false, List, [], ◌∷◌, ◌++◌, append_assoc, All,
  some, if◌then◌else◌,
}
use epic_miner.Console.Printer.{
  OutColours, colour_codes, reset_codes, set_colour, reset_colour, put, Arg, colour, text,
  parse_print_arg, parse_print, print_nt,
}

-- A terminal's text without its escape sequences, each from the byte 27 to the letter m; `inside`
-- says that the text begins inside of one.
pub strip : Bool → List ℕ → List ℕ
strip inside [] = []
strip true (c ∷ s) =
    let over = strip false s in let rest = strip true s in if c == b'm' then over else rest
strip false (c ∷ s) =
    let escape = strip true s in let rest = strip false s in if c == 27 then escape else c ∷ rest

-- A text without escape sequences.
abbrev pub IsPlain : List ℕ → Type 0
IsPlain = All (λ c. (c == 27) ≡ false)

abbrev pub IsPlainArg : Arg → Type 0
IsPlainArg (colour cl) = Unit
IsPlainArg (text str) = IsPlain str

strip-plain : (str s : List ℕ) → IsPlain str → strip false (str ++ s) ≡ str ++ strip false s
unfolding strip
strip-plain [] s plain = refl
strip-plain (c ∷ str) s (other, plain) = rw (other) (ap (◌∷◌ c) (strip-plain str s plain))

strip-colour_codes :
    (cl : OutColours) (s : List ℕ) → strip false (colour_codes cl ++ s) ≡ strip false s
unfolding strip colour_codes
strip-colour_codes OutColours.k_red s = refl
strip-colour_codes OutColours.k_green s = refl
strip-colour_codes OutColours.k_blue s = refl
strip-colour_codes OutColours.k_yellow s = refl
strip-colour_codes OutColours.k_cyan s = refl
strip-colour_codes OutColours.k_magenta s = refl
strip-colour_codes OutColours.k_white s = refl
strip-colour_codes OutColours.k_none s = refl

-- What the arguments of print write to the terminal, and to the log file, with the newline.
pub shown : List Arg → List ℕ
unfolding colour_codes
shown [] = b'\n' ∷ []
shown (colour cl ∷ args) = colour_codes cl ++ shown args
shown (text str ∷ args) = str ++ shown args

pub logged : List Arg → List ℕ
logged [] = b'\n' ∷ []
logged (colour cl ∷ args) = logged args
logged (text str ∷ args) = str ++ logged args

strip-shown :
    (args : List Arg) → All IsPlainArg args → strip false (shown args ++ reset_codes) ≡ logged args
unfolding shown logged strip
strip-shown [] plain = refl
strip-shown (colour cl ∷ args) (p, plain) =
    ap (strip false) (append_assoc (colour_codes cl) (shown args) reset_codes)
    ∙ (strip-colour_codes cl (shown args ++ reset_codes) ∙ strip-shown args plain)
strip-shown (text str ∷ args) (p, plain) =
    ap (strip false) (append_assoc str (shown args) reset_codes)
    ∙ (strip-plain str (shown args ++ reset_codes) p
        ∙ ap (λ (xs : List ℕ). str ++ xs) (strip-shown args plain))

parse_print-both :
    (args : List Arg) (out log : List ℕ)
    → parse_print args (record { stdout = out; logfile = some log })
      ≡ record { stdout = out ++ shown args; logfile = some (log ++ logged args) }
unfolding parse_print parse_print_arg put set_colour shown logged
parse_print-both [] out log = refl
parse_print-both (colour cl ∷ args) out log =
    parse_print-both args (out ++ colour_codes cl) log
    ∙ ap (λ (xs : List ℕ). record { stdout = xs; logfile = some (log ++ logged args) })
        (append_assoc out (colour_codes cl) (shown args))
parse_print-both (text str ∷ args) out log =
    parse_print-both args (out ++ str) (log ++ str)
    ∙ ap₂ (λ (xs : List ℕ) (ys : List ℕ). record { stdout = xs; logfile = some ys })
        (append_assoc out str (shown args)) (append_assoc log str (logged args))

-- With a log file open, and no escape character in the texts, print_nt appends to the log file exactly
-- what it appends to the terminal, less the colour sequences.
pub print_nt-strip :
    (args : List Arg) (out log : List ℕ)
    → All IsPlainArg args
    → (screen : List ℕ) × ((print_nt args (record { stdout = out; logfile = some log })
          ≡ record { stdout = out ++ screen; logfile = some (log ++ strip false screen) })
        × (strip false screen ≡ logged args))
unfolding print_nt reset_colour
print_nt-strip args out log plain =
    let screen = shown args ++ reset_codes in
    let clean = strip-shown args plain in
    (
      screen,
      (
        ap reset_colour (parse_print-both args out log)
            ∙ ap₂
                (λ (xs : List ℕ) (ys : List ℕ). record { stdout = xs; logfile = some (log ++ ys) })
                (append_assoc out (shown args) reset_codes) (sym clean),
        clean,
      ),
    )
