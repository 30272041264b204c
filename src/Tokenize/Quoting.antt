-- ===== src/Tokenize/Quoting.antt =====
-- Words in quotes are split as they were joined (crates/luchta-worker/src/tokenize.rs).
use Prim.Native.Char.{Char, code}
use luchta.Prelude.{
  ◌≡◌, refl, sym, ap, ◌∙◌, true, false, some, none, List, [], ◌∷◌, ◌++◌, append_nil, append_assoc,
  String, nat_beq, arith, if◌then◌else◌,
}
use luchta.Text.{append, contains_char}
use luchta.Tokenize.{Scan, scan_plain, scan_char, scan_chars, tokenize_command, push_char}

-- The word in single quotes, before what follows.
abbrev pub quoted : String → String → String
quoted word rest = String.◌∷◌ "'" (append word (String.◌∷◌ "'" rest))

-- The words in single quotes, with a space between two.
unfoldable pub join_quoted : List String → String
join_quoted [] = ""
join_quoted (word ∷ []) = quoted word ""
join_quoted (word ∷ next ∷ words) = quoted word (String.◌∷◌ " " (join_quoted (next ∷ words)))

-- No word has a single quote.
abbrev pub Unquoted : List String → Type 0
Unquoted [] = Unit
Unquoted (word ∷ words) = (contains_char "'" word ≡ false) × Unquoted words

append-push_char :
    (s : String) (c : Char) (t : String) → append (push_char s c) t ≡ append s (String.◌∷◌ c t)
append-push_char String.[] c t = refl
append-push_char (String.◌∷◌ d s) c t = ap (λ z. String.◌∷◌ d z) (append-push_char s c t)

append-empty : (s : String) → append s "" ≡ s
append-empty String.[] = refl
append-empty (String.◌∷◌ c s) = ap (λ z. String.◌∷◌ c z) (append-empty s)

abbrev between : List String → Scan
between tokens = record { tokens = tokens; current = ""; quote = none; started = false }

abbrev inside : List String → String → Scan
inside tokens current = record {
  tokens = tokens;
  current = current;
  quote = some "'";
  started = true;
}

scan_char-inside :
    (c : Char) (tokens : List String) (current : String)
    → nat_beq (code c) (code "'") ≡ false
    → scan_char (inside tokens current) c ≡ inside tokens (push_char current c)
unfolding scan_char
scan_char-inside c tokens current differs = rw (scan_char, differs) refl

-- All characters up to the closing quote are kept.
scan_chars-inside :
    (word rest : String) (tokens : List String) (current : String)
    → contains_char "'" word ≡ false
    → scan_chars (inside tokens current) (append word rest)
      ≡ scan_chars (inside tokens (append current word)) rest
unfolding scan_chars contains_char
scan_chars-inside String.[] rest tokens current h =
    ap (λ s. scan_chars (inside tokens s) rest) (sym (append-empty current))
scan_chars-inside (String.◌∷◌ c word) rest tokens current h =
    let differs : nat_beq (code c) (code "'") ≡ false = ground (arith) in
    ap (λ s. scan_chars s (append word rest)) (scan_char-inside c tokens current differs)
    ∙ (scan_chars-inside word rest tokens (push_char current c) (ground arith)
        ∙ ap (λ s. scan_chars (inside tokens s) rest) (append-push_char current c word))

-- A quoted word is started and ended by its quotes.
scan_chars-quoted :
    (word rest : String) (tokens : List String)
    → contains_char "'" word ≡ false
    → scan_chars (between tokens) (quoted word rest)
      ≡ scan_chars (record { tokens = tokens; current = word; quote = none; started = true }) rest
unfolding scan_chars scan_char scan_plain
scan_chars-quoted word rest tokens h = scan_chars-inside word (String.◌∷◌ "'" rest) tokens "" h

tokens_of : Scan → List String
tokens_of s = if s.started then s.tokens ++ s.current ∷ [] else s.tokens

tokens-join_quoted :
    (words : List String) (tokens : List String)
    → Unquoted words
    → tokens_of (scan_chars (between tokens) (join_quoted words)) ≡ tokens ++ words
unfolding join_quoted tokens_of scan_chars scan_char scan_plain
tokens-join_quoted [] tokens u = sym (append_nil tokens)
tokens-join_quoted (word ∷ []) tokens u = ap tokens_of (scan_chars-quoted word "" tokens u.0)
tokens-join_quoted (word ∷ next ∷ words) tokens u =
    ap tokens_of (scan_chars-quoted word (String.◌∷◌ " " (join_quoted (next ∷ words))) tokens u.0)
    ∙ (tokens-join_quoted (next ∷ words) (tokens ++ word ∷ []) u.1
        ∙ append_assoc tokens word (next ∷ words))

-- Words without a single quote that are put in single quotes, with a space between two, are split
-- into the same words, empty ones and ones with spaces included.
pub tokenize_command-join_quoted :
    (words : List String) → Unquoted words → tokenize_command (join_quoted words) ≡ words
unfolding tokenize_command tokens_of
tokenize_command-join_quoted words u = tokens-join_quoted words [] u
