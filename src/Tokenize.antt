-- ===== src/Tokenize.antt =====
-- crates/luchta-worker/src/tokenize.rs: a command line is split into its words.
pub mod Quoting
mod Samples
use Prim.Native.Char.{Char, code}
use luchta.Prelude.{
  ℕ, Bool, true, false, ◌||◌, Option, none, some, List, [], ◌∷◌, ◌++◌, String, nat_beq,
  if◌then◌else◌,
}
use luchta.Text.{append, is_whitespace}

-- The variables of the loop.
pub record Scan : Type 0 where
  pub tokens : List String
  pub current : String
  pub quote : Option Char
  pub started : Bool

abbrev pub push_char : String → Char → String
push_char s c = append s (String.◌∷◌ c String.[])

-- A character outside quotes.
unfoldable pub scan_plain : Scan → Char → Scan
scan_plain s c =
    if is_whitespace (code c)
    then if s.started
      then record s { tokens = s.tokens ++ s.current ∷ []; current = ""; started = false }
      else s
    else if nat_beq (code c) 39 || nat_beq (code c) 34
    then record s { quote = some c; started = true }
    else record s { current = push_char s.current c; started = true }

unfoldable pub scan_char : Scan → Char → Scan
unfolding scan_plain
scan_char s c = elim s.quote [
  | some active_quote ↦
      if nat_beq (code c) (code active_quote)
      then record s { quote = none }
      else record s { current = push_char s.current c; started = true }
  | none ↦ scan_plain s c
]

unfoldable pub scan_chars : Scan → String → Scan
unfolding scan_char
scan_chars s String.[] = s
scan_chars s (String.◌∷◌ c rest) = scan_chars (scan_char s c) rest

unfoldable pub tokenize_command : String → List String
unfolding scan_chars
tokenize_command raw =
    let s = scan_chars (record { tokens = []; current = ""; quote = none; started = false }) raw in
    if s.started then s.tokens ++ s.current ∷ [] else s.tokens
