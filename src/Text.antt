-- ===== src/Text.antt =====
-- What the program uses of `str`: prefixes, splits, trimming and concatenation.
use Prim.Native.Char.{Char, code}
use text.Mathlib.TextEquality.{Char-path}
use mathlib.Core.Option.{some-injective}
use luchta.Prelude.{
  ℕ, ◌≡◌, refl, sym, ap, Bool, true, false, ◌||◌, ◌&&◌, Option, none, some, inl, inr, String, arith,
  leb, nat_beq, nat_beq_iff, if◌then◌else◌, Bool-cases, Option-cases,
}

abbrev pub append : String → String → String
append String.[] t = t
append (String.◌∷◌ c s) t = String.◌∷◌ c (append s t)

abbrev pub is_empty : String → Bool
is_empty String.[] = true
is_empty (String.◌∷◌ c s) = false

-- `s.strip_prefix(p)`
unfoldable pub strip_prefix : (p s : String) → Option String
strip_prefix String.[] s = some s
strip_prefix (String.◌∷◌ d p) String.[] = none
strip_prefix (String.◌∷◌ d p) (String.◌∷◌ c s) =
    if nat_beq (code d) (code c) then strip_prefix p s else none

-- `s.split_once(d)`, at the first occurrence of the character
unfoldable pub split_once : Char → String → Option (String × String)
split_once d String.[] = none
split_once d (String.◌∷◌ c s) =
    let rest = split_once d s in
    if nat_beq (code d) (code c)
    then some (String.[], s)
    else elim rest [ none ↦ none | some (a, b) ↦ some (String.◌∷◌ c a, b) ]

-- `s.contains(d)` for a character
unfoldable pub contains_char : Char → String → Bool
contains_char d String.[] = false
contains_char d (String.◌∷◌ c s) = nat_beq (code d) (code c) || contains_char d s

-- `char::is_whitespace`: the code points with the property White_Space.
abbrev pub is_whitespace : ℕ → Bool
is_whitespace c =
    leb 9 c && leb c 13
    || nat_beq c 32
    || nat_beq c 0x85
    || nat_beq c 0xA0
    || nat_beq c 0x1680
    || leb 0x2000 c && leb c 0x200A
    || nat_beq c 0x2028
    || nat_beq c 0x2029
    || nat_beq c 0x202F
    || nat_beq c 0x205F
    || nat_beq c 0x3000

unfoldable pub trim_start : String → String
trim_start String.[] = String.[]
trim_start (String.◌∷◌ c s) = if is_whitespace (code c) then trim_start s else String.◌∷◌ c s

-- A space is kept only if something else follows it.
unfoldable pub trim_end : String → String
trim_end String.[] = String.[]
trim_end (String.◌∷◌ c s) =
    let rest = trim_end s in
    if is_whitespace (code c) && is_empty rest then String.[] else String.◌∷◌ c rest

-- `s.trim()`
unfoldable pub trim : String → String
unfolding trim_start trim_end
trim s = trim_end (trim_start s)

pub strip_prefix-eq : (p s t : String) → strip_prefix p s ≡ some t → s ≡ append p t
unfolding strip_prefix
strip_prefix-eq String.[] s t h = ground arith
strip_prefix-eq (String.◌∷◌ d p) String.[] t h = cc
strip_prefix-eq (String.◌∷◌ d p) (String.◌∷◌ c s) t h =
    elim (Bool-cases (nat_beq (code d) (code c))) [
      | inl same ↦
          let same_char = Char-path d c ((nat_beq_iff _ _).0 same) in
          let tails = strip_prefix-eq p s t (rw same at h) in cc
      | inr differs ↦ cc (rw differs at h)
    ]

pub strip_prefix-append : (p t : String) → strip_prefix p (append p t) ≡ some t
unfolding strip_prefix
strip_prefix-append String.[] t = refl
strip_prefix-append (String.◌∷◌ d p) t = ground (arith, strip_prefix-append p t)

pub split_once-eq :
    (d : Char) (s a b : String)
    → split_once d s ≡ some (a, b)
    → (s ≡ append a (String.◌∷◌ d b)) × (contains_char d a ≡ false)
unfolding split_once contains_char
split_once-eq d String.[] a b h = cc
split_once-eq d (String.◌∷◌ c s) a b h = elim (Bool-cases (nat_beq (code d) (code c))) [
  | inl same ↦
      let same_char = Char-path d c ((nat_beq_iff _ _).0 same) in
      let parts : ◌≡◌ {A = Option (String × String)} (some (String.[], s)) (some (a, b)) =
        rw same at h in
      let pair = some-injective _ _ parts in
      let first : String.[] ≡ a = ap (λ (p : String × String). p.0) pair in
      let second : s ≡ b = ap (λ (p : String × String). p.1) pair in
      rw (← first, ← second) (ap (λ x. String.◌∷◌ x s) (sym same_char), refl)
  | inr differs ↦ elim (Option-cases (split_once d s)) [
    | inl stuck ↦ cc (rw (differs, stuck) at h)
    | inr ((a', b'), found) ↦
        let parts : ◌≡◌ {A = Option (String × String)} (some (String.◌∷◌ c a', b')) (some (a, b)) =
          rw (differs, found) at h in
        let ih = split_once-eq d s a' b' found in ground arith
  ]
]

pub split_once-eq-none : (d : Char) (s : String) → split_once d s ≡ none → contains_char d s ≡ false
unfolding split_once contains_char
split_once-eq-none d String.[] h = refl
split_once-eq-none d (String.◌∷◌ c s) h = ground (arith, split_once-eq-none d s)

pub split_once-append :
    (d : Char) (a b : String)
    → contains_char d a ≡ false
    → split_once d (append a (String.◌∷◌ d b)) ≡ some (a, b)
unfolding split_once contains_char
split_once-append d String.[] b h = ground arith
split_once-append d (String.◌∷◌ c a) b h = ground (arith, split_once-append d a b)

pub split_once_of_not-contains :
    (d : Char) (s : String) → contains_char d s ≡ false → split_once d s ≡ none
unfolding split_once contains_char
split_once_of_not-contains d String.[] h = refl
split_once_of_not-contains d (String.◌∷◌ c s) h = ground (arith, split_once_of_not-contains d s)
