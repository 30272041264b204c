-- ===== src/Tokenize/Samples.antt =====
-- Command lines (crates/luchta-worker/src/tokenize.rs).
use luchta.Prelude.{◌≡◌, refl, [], ◌∷◌}
use luchta.Text.{contains_char}
use luchta.Tokenize.{scan_plain, scan_char, scan_chars, tokenize_command}
use luchta.Tokenize.Quoting.{join_quoted, tokenize_command-join_quoted}

program : Unit {0}
unfolding scan_plain scan_char scan_chars tokenize_command contains_char
program = tt

unmatched : tokenize_command "--config '/a b/x.json --fix" ≡ "--config" ∷ "/a b/x.json --fix" ∷ []
unfolding program
unmatched = refl

empty_kept : tokenize_command "--config \"\" --fix" ≡ "--config" ∷ "" ∷ "--fix" ∷ []
unfolding program
empty_kept = refl

tokenize_command-join_quoted_example :
    tokenize_command (join_quoted ("two words" ∷ "" ∷ "--fix" ∷ []))
    ≡ "two words" ∷ "" ∷ "--fix" ∷ []
unfolding program
tokenize_command-join_quoted_example =
    tokenize_command-join_quoted ("two words" ∷ "" ∷ "--fix" ∷ []) (refl, (refl, (refl, tt)))
