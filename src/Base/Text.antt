-- ===== src/Base/Text.antt =====
-- Texts: decimal numbers, and what the code uses of Go's strings.
use Prim.Native.Nat.{ℕ, zero, suc, ◌/◌, ◌%◌}
use Prim.Native.Char.{Char, code}
use mathlib.Core.Bool.{Bool, true, false, ◌&&◌, ◌||◌}
use mathlib.Core.Option.{Option, none, some}
use mathlib.Core.List.{List, [], ◌∷◌}
use text.Mathlib.Text.{◌==◌ as str_eq}
use Prim.Native.String.{String}
use Prim.Native.String
use try_it_now.Base.Tests.{ltb, leb, ◌==◌, if◌then◌else◌}

infixr 65 ◌<>◌
abbrev pub ◌<>◌ : String → String → String
s <> t = String.◌++◌ s t

abbrev pub digit : ℕ → String
digit n =
    if n == 0
    then "0"
    else if n == 1
    then "1"
    else if n == 2
    then "2"
    else if n == 3
    then "3"
    else if n == 4
    then "4"
    else if n == 5
    then "5"
    else if n == 6
    then "6"
    else if n == 7
    then "7"
    else if n == 8
    then "8"
    else "9"

unfoldable pub decimal_digits : ℕ → ℕ → String
decimal_digits zero n = ""
decimal_digits (suc fuel) n =
    let front = decimal_digits fuel (n / 10) in
    if ltb n 10 then digit n else front <> digit (n % 10)

-- `%d`; a number has at most one digit more than its value.
unfoldable pub decimal : ℕ → String
unfolding decimal_digits
decimal n = decimal_digits (suc n) n

-- `s[:n]` of an ASCII text; Go panics where the text is shorter.
unfoldable pub first_chars : ℕ → String → String
first_chars zero s = ""
first_chars (suc n) String.[] = ""
first_chars (suc n) (String.◌∷◌ c s) = String.◌∷◌ c (first_chars n s)

-- strings.ReplaceAll(s, c, "") for one character.
unfoldable pub without_char : ℕ → String → String
without_char k String.[] = ""
without_char k (String.◌∷◌ c s) =
    let rest = without_char k s in if code c == k then rest else String.◌∷◌ c rest

-- The code of the character is `k` somewhere in the text: strings.Contains for one character.
unfoldable pub has_char : ℕ → String → Bool
has_char k String.[] = false
has_char k (String.◌∷◌ c s) = code c == k || has_char k s

-- strings.ReplaceAll for one character by another.
unfoldable pub replace_char : ℕ → Char → String → String
replace_char k d String.[] = ""
replace_char k d (String.◌∷◌ c s) = String.◌∷◌ (if code c == k then d else c) (replace_char k d s)

-- What follows the prefix, where the text begins with it.
unfoldable pub after_prefix : String → String → Option String
after_prefix String.[] s = some s
after_prefix (String.◌∷◌ c p) String.[] = none
after_prefix (String.◌∷◌ c p) (String.◌∷◌ d s) =
    let rest = after_prefix p s in if code c == code d then rest else none

-- strings.TrimPrefix
unfoldable pub trim_prefix : String → String → String
unfolding after_prefix
trim_prefix p s = elim (after_prefix p s) [ none ↦ s | some rest ↦ rest ]

-- strings.TrimSuffix
unfoldable pub trim_suffix : String → String → String
trim_suffix t String.[] = ""
trim_suffix t (String.◌∷◌ c s) =
    let rest = String.◌∷◌ c (trim_suffix t s) in if str_eq t (String.◌∷◌ c s) then "" else rest

-- unicode.IsSpace
abbrev pub is_space : ℕ → Bool
is_space k =
    (leb 9 k && leb k 13)
    || (k == 32 || (k == 133 || (k == 160 || (k == 5760 || (leb 8192 k && leb k 8202)))))
    || (k == 8232 || (k == 8233 || (k == 8239 || (k == 8287 || k == 12288))))

trim_left : String → String
trim_left String.[] = ""
trim_left (String.◌∷◌ c s) =
    let rest = trim_left s in if is_space (code c) then rest else String.◌∷◌ c s

trim_right : String → String
trim_right String.[] = ""
trim_right (String.◌∷◌ c s) =
    let rest = trim_right s in if str_eq rest "" && is_space (code c) then "" else String.◌∷◌ c rest

-- strings.TrimSpace
unfoldable pub trim_space : String → String
unfolding trim_left trim_right
trim_space s = trim_right (trim_left s)

abbrev pub is_some : {A : Type 0} → Option A → Bool
is_some none = false
is_some (some a) = true

-- strings.Contains
unfoldable pub has_text : String → String → Bool
unfolding after_prefix
has_text t String.[] = str_eq t ""
has_text t (String.◌∷◌ c s) =
    let later = has_text t s in is_some (after_prefix t (String.◌∷◌ c s)) || later

abbrev pub to_first : Char → List String → List String
to_first c [] = []
to_first c (piece ∷ others) = String.◌∷◌ c piece ∷ others

-- strings.Split at each character that is a separator.
unfoldable pub split_at : (ℕ → Bool) → String → List String
split_at is_separator String.[] = "" ∷ []
split_at is_separator (String.◌∷◌ c s) =
    let pieces = split_at is_separator s in
    if is_separator (code c) then "" ∷ pieces else to_first c pieces

-- The pieces with a text left.
unfoldable pub without_blanks : List String → List String
without_blanks [] = []
without_blanks (s ∷ rest) =
    let others = without_blanks rest in if str_eq s "" then others else s ∷ others

-- strings.Fields
unfoldable pub fields : String → List String
unfolding split_at without_blanks
fields s = without_blanks (split_at is_space s)
