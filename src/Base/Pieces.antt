-- ===== src/Base/Pieces.antt =====
-- Texts that are split at a character, and numbers as pieces.
use Prim.Native.Char.{Char, code}
use Prim.Native.String.{String}
use Prim.Native.Nat.{ℕ, zero, suc, ◌<◌, ◌/◌, ◌%◌}
use mathlib.Core.Path.{◌≡◌, refl, ◌∙◌}
use mathlib.Core.Bool.{false, ◌||◌}
use mathlib.Core.Logic.{inl, inr}
use mathlib.Core.List.{[], ◌∷◌}
use native.Mathlib.Omega.{arith}
use text.Mathlib.TextLemmas.{nil-append, cons-append}
use try_it_now.Base.Tests.{ltb, ◌==◌, Bool-cases}
use try_it_now.Base.Text.{◌<>◌, digit, decimal_digits, decimal, split_at, has_char}

pub split_at-none : (k : ℕ) (s : String) → has_char k s ≡ false → split_at (λ d. d == k) s ≡ s ∷ []
unfolding split_at has_char
split_at-none k String.[] h = refl
split_at-none k (String.◌∷◌ c s) h = ground (arith, split_at-none k s)

-- `separator` is the text of the one character `k`.
pub split_at-append :
    (k : ℕ) (d : Char) (s t : String)
    → code d ≡ k
    → has_char k s ≡ false
    → split_at (λ e. e == k) (s <> String.◌∷◌ d t) ≡ s ∷ split_at (λ e. e == k) t
unfolding split_at has_char
split_at-append k d String.[] t same h = rw (nil-append (String.◌∷◌ d t)) (ground (arith, same))
split_at-append k d (String.◌∷◌ c s) t same h =
    rw (cons-append c s (String.◌∷◌ d t)) (ground (arith, split_at-append k d s t same))

has_char-append : (k : ℕ) (s t : String) → has_char k (s <> t) ≡ (has_char k s || has_char k t)
unfolding has_char
has_char-append k String.[] t = rw (nil-append t) refl
has_char-append k (String.◌∷◌ c s) t =
    rw (cons-append c s t) (ground (arith, has_char-append k s t))

-- The characters before the digits.
has_char-digit : (k d : ℕ) → d < 10 → k < 48 → has_char k (digit d) ≡ false
unfolding has_char
has_char-digit k zero h b = ground arith
has_char-digit k (suc zero) h b = ground arith
has_char-digit k (suc (suc zero)) h b = ground arith
has_char-digit k (suc (suc (suc zero))) h b = ground arith
has_char-digit k (suc (suc (suc (suc zero)))) h b = ground arith
has_char-digit k (suc (suc (suc (suc (suc zero))))) h b = ground arith
has_char-digit k (suc (suc (suc (suc (suc (suc zero)))))) h b = ground arith
has_char-digit k (suc (suc (suc (suc (suc (suc (suc zero))))))) h b = ground arith
has_char-digit k (suc (suc (suc (suc (suc (suc (suc (suc zero)))))))) h b = ground arith
has_char-digit k (suc (suc (suc (suc (suc (suc (suc (suc (suc zero))))))))) h b = ground arith
has_char-digit k (suc (suc (suc (suc (suc (suc (suc (suc (suc (suc d)))))))))) h b =
    ground (arith, h)

has_char-decimal_digits : (k fuel n : ℕ) → k < 48 → has_char k (decimal_digits fuel n) ≡ false
unfolding decimal_digits has_char
has_char-decimal_digits k zero n b = refl
has_char-decimal_digits k (suc fuel) n b = elim (Bool-cases (ltb n 10)) [
  | inl small ↦ rw small (has_char-digit k n (ground arith) b)
  | inr large ↦
      let front = has_char-decimal_digits k fuel (n / 10) b in
      let last = has_char-digit k (n % 10) (omega arith) b in
      rw large (has_char-append k (decimal_digits fuel (n / 10)) (digit (n % 10)) ∙ rw front last)
]

pub has_char-decimal : (k n : ℕ) → k < 48 → has_char k (decimal n) ≡ false
unfolding decimal
has_char-decimal k n b = has_char-decimal_digits k (suc n) n b
