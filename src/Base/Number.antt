-- ===== src/Base/Number.antt =====
-- strconv.Atoi, and the numbers that strconv.Itoa and `%d` write.
use Prim.Native.Nat.{ℕ, zero, suc, ◌+◌, ◌*◌, ◌-◌, ◌/◌, ◌%◌, ◌<◌, ◌^◌}
use Prim.Native.Char.{code}
use Prim.Native.String.{String}
use Prim.Native.String.{count}
use mathlib.Core.Path.{◌≡◌, refl, ◌∙◌, ap}
use mathlib.Core.Bool.{Bool, false, ◌&&◌}
use mathlib.Core.Option.{Option, none, some}
use native.Mathlib.Omega.{arith}
use text.Mathlib.Text.{◌==◌ as str_eq}
use text.Mathlib.TextEquality.{eq_iff}
use text.Mathlib.TextLemmas.{nil-append, cons-append, length-append}
use try_it_now.Base.Tests.{ltb, leb, ◌==◌, if◌then◌else◌, Bool-cases}
use try_it_now.Base.Int.{ℤ, pos, negate}
use try_it_now.Base.Text.{◌<>◌, digit, decimal_digits, decimal}
use mathlib.Core.Logic.{inl, inr}

abbrev pub is_digit : ℕ → Bool
is_digit k = leb b'0' k && leb k b'9'

-- The number that the digits continue `n` to.
unfoldable pub parse_digits : ℕ → String → Option ℕ
parse_digits n String.[] = some n
parse_digits n (String.◌∷◌ c s) =
    let rest = parse_digits (n * 10 + (code c - b'0')) s in if is_digit (code c) then rest else none

-- At least one digit.
unfoldable pub parse_natural : String → Option ℕ
unfolding parse_digits
parse_natural String.[] = none
parse_natural (String.◌∷◌ c s) = parse_digits 0 (String.◌∷◌ c s)

-- The largest int is 2^63 - 1.
abbrev pub fits_pos : Option ℕ → Option ℤ
fits_pos none = none
fits_pos (some n) = if ltb n (2 ^ 63) then some (pos n) else none

abbrev pub fits_neg : Option ℕ → Option ℤ
fits_neg none = none
fits_neg (some n) = if leb n (2 ^ 63) then some (negate n) else none

-- strconv.Atoi: a sign, and decimal digits.
unfoldable pub parse_int : String → Option ℤ
unfolding parse_natural
parse_int String.[] = none
parse_int (String.◌∷◌ c s) =
    let unsigned = fits_pos (parse_natural (String.◌∷◌ c s)) in
    let positive = fits_pos (parse_natural s) in
    let negative = fits_neg (parse_natural s) in
    if code c == b'-' then negative else if code c == b'+' then positive else unsigned

abbrev then_digits : Option ℕ → String → Option ℕ
then_digits none t = none
then_digits (some n) t = parse_digits n t

parse_digits-append :
    (n : ℕ) (s t : String) → parse_digits n (s <> t) ≡ then_digits (parse_digits n s) t
unfolding parse_digits
parse_digits-append n String.[] t = rw (nil-append t) refl
parse_digits-append n (String.◌∷◌ c s) t =
    rw (cons-append c s t) (ground (arith, parse_digits-append (n * 10 + (code c - b'0')) s t))

parse_digits-digit : (n d : ℕ) → d < 10 → parse_digits n (digit d) ≡ some (n * 10 + d)
unfolding parse_digits
parse_digits-digit n zero h = refl
parse_digits-digit n (suc zero) h = refl
parse_digits-digit n (suc (suc zero)) h = refl
parse_digits-digit n (suc (suc (suc zero))) h = refl
parse_digits-digit n (suc (suc (suc (suc zero)))) h = refl
parse_digits-digit n (suc (suc (suc (suc (suc zero))))) h = refl
parse_digits-digit n (suc (suc (suc (suc (suc (suc zero)))))) h = refl
parse_digits-digit n (suc (suc (suc (suc (suc (suc (suc zero))))))) h = refl
parse_digits-digit n (suc (suc (suc (suc (suc (suc (suc (suc zero)))))))) h = refl
parse_digits-digit n (suc (suc (suc (suc (suc (suc (suc (suc (suc zero))))))))) h = refl
parse_digits-digit n (suc (suc (suc (suc (suc (suc (suc (suc (suc (suc d)))))))))) h =
    ground (arith, h)

parse_digits-decimal_digits :
    (fuel n : ℕ) → n < fuel → parse_digits 0 (decimal_digits fuel n) ≡ some n
unfolding decimal_digits
parse_digits-decimal_digits zero n h = ground (arith, h)
parse_digits-decimal_digits (suc fuel) n h = elim (Bool-cases (ltb n 10)) [
  | inl small ↦
      rw (small, decimal_digits) (parse_digits-digit 0 n (ground arith) ∙ ap some (omega arith))
  | inr large ↦
      let front = parse_digits-decimal_digits fuel (n / 10) (ground (arith, large)) in
      let split = parse_digits-append 0 (decimal_digits fuel (n / 10)) (digit (n % 10)) in
      rw (large, decimal_digits)
        (split
          ∙ rw front (parse_digits-digit (n / 10) (n % 10) (omega arith) ∙ ap some (omega arith)))
]

count-digit : (d : ℕ) → d < 10 → count (digit d) ≡ 1
count-digit zero h = refl
count-digit (suc zero) h = refl
count-digit (suc (suc zero)) h = refl
count-digit (suc (suc (suc zero))) h = refl
count-digit (suc (suc (suc (suc zero)))) h = refl
count-digit (suc (suc (suc (suc (suc zero))))) h = refl
count-digit (suc (suc (suc (suc (suc (suc zero)))))) h = refl
count-digit (suc (suc (suc (suc (suc (suc (suc zero))))))) h = refl
count-digit (suc (suc (suc (suc (suc (suc (suc (suc zero)))))))) h = refl
count-digit (suc (suc (suc (suc (suc (suc (suc (suc (suc zero))))))))) h = refl
count-digit (suc (suc (suc (suc (suc (suc (suc (suc (suc (suc d)))))))))) h = ground (arith, h)

count-decimal_digits : (fuel n : ℕ) → 0 < count (decimal_digits (suc fuel) n)
unfolding decimal_digits
count-decimal_digits fuel n = elim (Bool-cases (ltb n 10)) [
  | inl small ↦ rw small (ground (arith, count-digit n (ground arith)))
  | inr large ↦ rw large (
      ground (
        arith,
        count-digit (n % 10) (omega arith),
        length-append (decimal_digits fuel (n / 10)) (digit (n % 10)),
      ))
]

pub parse_int_of_digits :
    (s : String) (n : ℕ)
    → 0 < count s
    → parse_digits 0 s ≡ some n
    → n < 2 ^ 63
    → parse_int s ≡ some (pos n)
unfolding parse_int parse_digits
parse_int_of_digits String.[] n l h b = ground (arith, l)
parse_int_of_digits (String.◌∷◌ c s) n l h b = ground (arith, h, b)

-- What is written of a number is read as that number.
pub parse_int-decimal : (n : ℕ) → n < 2 ^ 63 → parse_int (decimal n) ≡ some (pos n)
unfolding decimal
parse_int-decimal n h =
    parse_int_of_digits (decimal_digits (suc n) n) n (count-decimal_digits n n)
      (parse_digits-decimal_digits (suc n) n (omega arith)) h

pub decimal_not_blank : (n : ℕ) → str_eq (decimal n) "" ≡ false
unfolding decimal
decimal_not_blank n =
    let counts = count-decimal_digits n n in
    elim (Bool-cases (str_eq (decimal n) "")) [
      | inl blank ↦ ground (arith, ap count ((eq_iff (decimal n) "").0 blank), counts)
      | inr text ↦ text
    ]
