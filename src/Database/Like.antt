-- ===== src/Database/Like.antt =====
-- LIKE, and the prefixes that it takes apart.
use Prim.Native.Char.{Char, code}
use text.Mathlib.TextLemmas.{nil-append, cons-append}
use text.Mathlib.TextEquality.{Char-path}
use try_it_now.Base.{
  ℕ, zero, suc, ◌≡◌, refl, ◌∙◌, ap, String, Bool, true, false, ◌&&◌, ◌||◌, arith, ◌==◌, str_eq,
  eq_iff, if◌then◌else◌,
}
use try_it_now.Base.Text.{◌<>◌, first_chars, without_char}
use try_it_now.Database.{is_hex, is_hex_tail, is_valid_prefix}
use try_it_now.Provision.{generate_db_prefix}

-- `f` holds of the text or of one of its ends.
unfoldable pub of_some_end : (String → Bool) → String → Bool
of_some_end f String.[] = f ""
of_some_end f (String.◌∷◌ d s) = let rest = of_some_end f s in f (String.◌∷◌ d s) || rest

unfoldable pub like_next : ℕ → (String → Bool) → String → Bool
like_next k rest String.[] = false
like_next k rest (String.◌∷◌ d s) = (k == b'_' || k == code d) && rest s

-- The pattern (first) matches the whole text: `%` stands for any characters, `_` for any one. An
-- escape is left out: no pattern here has one.
unfoldable pub like : String → String → Bool
unfolding of_some_end like_next
like String.[] s = str_eq s ""
like (String.◌∷◌ c p) s =
    if code c == b'%' then of_some_end (like p) s else like_next (code c) (like p) s

of_some_end_empty : (s : String) → of_some_end (like "") s ≡ true
unfolding of_some_end like
of_some_end_empty String.[] = refl
of_some_end_empty (String.◌∷◌ d s) = ground (arith, of_some_end_empty s)

of_some_end_whole : (f : String → Bool) (s : String) → f s ≡ true → of_some_end f s ≡ true
unfolding of_some_end
of_some_end_whole f String.[] h = h
of_some_end_whole f (String.◌∷◌ d s) h = rw h refl

-- A prefix and `%` match all that begins with the prefix.
pub like_begins : (p s : String) → like (p <> "%") (p <> s) ≡ true
unfolding like like_next
like_begins String.[] s = rw (nil-append s) (of_some_end_empty s)
like_begins (String.◌∷◌ c p) s =
    rw (cons-append c p "%", cons-append c p s)
      (ground (arith, like_begins p s, of_some_end_whole (like (p <> "%")) (p <> s)))

literal_of_like :
    (c d : Char) (p s : String)
    → is_hex (code c) ≡ true
    → like (String.◌∷◌ c p) (String.◌∷◌ d s) ≡ true
    → (code c ≡ code d) × (like p s ≡ true)
unfolding like like_next
literal_of_like c d p s hc h = (ground arith, ground arith)

tail_of_like :
    (n : ℕ) (p q s : String)
    → is_hex_tail n p ≡ true
    → is_hex_tail n q ≡ true
    → like (p <> "%") (q <> s) ≡ true
    → p ≡ q
unfolding is_hex_tail like like_next
tail_of_like zero p q s hp hq h = ground (arith, eq_iff p "_", eq_iff q "_")
tail_of_like (suc n) String.[] q s hp hq h = ground arith
tail_of_like (suc n) (String.◌∷◌ c p) String.[] s hp hq h = ground arith
tail_of_like (suc n) (String.◌∷◌ c p) (String.◌∷◌ d q) s hp hq h =
    let (codes, rest) =
      literal_of_like c d (p <> "%") (q <> s) (ground arith)
        (rw (cons-append c p "%", cons-append d q s) at h) in
    ap (λ e. String.◌∷◌ e p) (Char-path c d codes)
    ∙ ap (String.◌∷◌ d) (tail_of_like n p q s (ground arith) (ground arith) rest)

-- Of two valid prefixes, one and `%` match what begins with the other just where they are the same.
pub prefix_of_like :
    (p q s : String)
    → is_valid_prefix p ≡ true
    → is_valid_prefix q ≡ true
    → like (p <> "%") (q <> s) ≡ true
    → p ≡ q
unfolding is_valid_prefix like like_next
prefix_of_like String.[] q s hp hq h = ground arith
prefix_of_like (String.◌∷◌ c p) String.[] s hp hq h = ground arith
prefix_of_like (String.◌∷◌ c p) (String.◌∷◌ d q) s hp hq h =
    let codes : code c ≡ code d = ground arith in
    let h' = rw (cons-append c p "%", cons-append d q s) at h in
    let rest : like (p <> "%") (q <> s) ≡ true = ground (arith, h') in
    ap (λ e. String.◌∷◌ e p) (Char-path c d codes)
    ∙ ap (String.◌∷◌ d) (tail_of_like 8 p q s (ground arith) (ground arith) rest)

-- The first characters of a text are hexadecimal digits, and there are that many.
unfoldable pub begins_hex : ℕ → String → Bool
begins_hex zero s = true
begins_hex (suc n) String.[] = false
begins_hex (suc n) (String.◌∷◌ c s) = is_hex (code c) && begins_hex n s

hex_tail_of_begins :
    (n : ℕ) (s : String)
    → begins_hex n s ≡ true
    → is_hex_tail n (without_char b'-' (first_chars n s) <> "_") ≡ true
unfolding begins_hex is_hex_tail without_char first_chars
hex_tail_of_begins zero s h = refl
hex_tail_of_begins (suc n) String.[] h = ground arith
hex_tail_of_begins (suc n) (String.◌∷◌ c s) h =
    let kept = without_char b'-' (first_chars n s) in
    let here : without_char b'-' (first_chars (suc n) (String.◌∷◌ c s)) ≡ String.◌∷◌ c kept =
      ground (arith, h) in
    rw (here, cons-append c kept "_") (ground (arith, h, hex_tail_of_begins n s))

d_append : (t : String) → "d" <> t ≡ String.◌∷◌ "d" t
d_append t = cons-append "d" "" t ∙ ap (String.◌∷◌ "d") (nil-append t)

-- The prefix that is generated from a UUID, whose first eight characters are hexadecimal digits, is
-- one that the database accepts.
pub generate_db_prefix_valid :
    (uuid : String) → begins_hex 8 uuid ≡ true → is_valid_prefix (generate_db_prefix uuid) ≡ true
unfolding generate_db_prefix is_valid_prefix
generate_db_prefix_valid uuid h =
    rw (d_append (without_char b'-' (first_chars 8 uuid) <> "_")) (hex_tail_of_begins 8 uuid h)
