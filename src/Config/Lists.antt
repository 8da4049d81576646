-- ===== src/Config/Lists.antt =====
-- The settings that are read back from what was set: lists of texts and numbers.
use Prim.Native.Nat.{◌^◌}
use text.Mathlib.TextLemmas.{nil-append, cons-append, cons≢nil}
use try_it_now.Base.{
  ℕ, ◌<◌, ◌≡◌, ◌≢◌, refl, ◌∙◌, ap, String, false, List, [], ◌∷◌, arith, ◌==◌, str_eq, eq_iff, map,
  All,
}
use try_it_now.Base.Pieces.{split_at-none, split_at-append}
use try_it_now.Base.Int.{ℤ, pos}
use try_it_now.Base.Number.{parse_int-decimal, decimal_not_blank}
use try_it_now.Base.Text.{◌<>◌, decimal, split_at, trim_space, without_blanks, has_char}
use try_it_now.Config.{Environment, get_env_int, get_env_string_slice}

-- The texts, with a comma after each but the last.
unfoldable pub comma_list : List String → String
comma_list [] = ""
comma_list (s ∷ []) = s
comma_list (s ∷ t ∷ rest) = s <> ("," <> comma_list (t ∷ rest))

-- A text of a list: not blank, with no comma in it and no space around it.
abbrev pub IsListed : String → Type 0
IsListed s = (str_eq s "" ≡ false) × (has_char b',' s ≡ false) × (trim_space s ≡ s)

split_at-comma_list :
    (s : String) (rest : List String)
    → All IsListed (s ∷ rest)
    → split_at (λ d. d == b',') (comma_list (s ∷ rest)) ≡ s ∷ rest
unfolding comma_list
split_at-comma_list s [] ((blank, plain, trimmed), h) = split_at-none b',' s plain
split_at-comma_list s (t ∷ rest) ((blank, plain, trimmed), h) =
    rw (cons-append "," "" (comma_list (t ∷ rest)), nil-append (comma_list (t ∷ rest)))
      (split_at-append b',' "," s (comma_list (t ∷ rest)) refl plain
        ∙ ap (λ xs. s ∷ xs) (split_at-comma_list t rest h))

kept : (xs : List String) → All IsListed xs → without_blanks (map trim_space xs) ≡ xs
unfolding without_blanks
kept [] h = refl
kept (s ∷ xs) ((blank, plain, trimmed), h) = ground (arith, kept xs h)

-- A list of texts that begins with one is not blank.
comma_list_not_blank :
    (s : String) (rest : List String)
    → str_eq s "" ≡ false
    → str_eq (comma_list (s ∷ rest)) "" ≡ false
unfolding comma_list
comma_list_not_blank s [] blank = blank
comma_list_not_blank String.[] (t ∷ rest) blank = ground (arith, blank)
comma_list_not_blank (String.◌∷◌ c s) (t ∷ rest) blank =
    let longer : String = s <> ("," <> comma_list (t ∷ rest)) in
    let not_empty : ◌≢◌ {A = String} (String.◌∷◌ c longer) "" = cons≢nil in
    rw (cons-append c s ("," <> comma_list (t ∷ rest)))
      (ground (arith, eq_iff (String.◌∷◌ c longer) "", not_empty))

-- What a variable lists with commas is what get_env_string_slice reads, in order: at least one text,
-- and none that is blank, or has a comma in it or spaces around it.
pub get_env_string_slice-comma_list :
    {F : Type 0} (env : Environment F) (key s : String) (rest default : List String)
    → All IsListed (s ∷ rest)
    → env.getenv key ≡ comma_list (s ∷ rest)
    → get_env_string_slice env key default ≡ s ∷ rest
unfolding get_env_string_slice
get_env_string_slice-comma_list env key s rest default ((blank, plain, trimmed), h) set = ground (
  arith,
  comma_list_not_blank s rest blank,
  split_at-comma_list s rest ((blank, plain, trimmed), h),
  kept (s ∷ rest) ((blank, plain, trimmed), h),
)

-- A number below 2^63 that a variable holds in decimal is the one that get_env_int reads.
pub get_env_int-decimal :
    {F : Type 0} (env : Environment F) (key : String) (n : ℕ) (default : ℤ)
    → n < 2 ^ 63
    → env.getenv key ≡ decimal n
    → get_env_int env key default ≡ pos n
unfolding get_env_int
get_env_int-decimal env key n default h set =
    ground (arith, parse_int-decimal n h, decimal_not_blank n)
