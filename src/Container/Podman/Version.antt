-- ===== src/Container/Podman/Version.antt =====
-- Podman's reading of a CRIU version (extractVersion and isVersionSupported in podman.go).
use text.Mathlib.TextLemmas.{nil-append, cons-append}
use Prim.Native.Nat.{◌^◌}
use try_it_now.Base.{
  ℕ, ◌<◌, ◌≡◌, refl, String, Bool, false, ◌&&◌, ◌||◌, Option, none, some, List, [], ◌∷◌, arith,
  ◌==◌, leb, ltb, if◌then◌else◌,
}
use try_it_now.Base.Int.{ℤ, pos, negsuc}
use try_it_now.Base.Number.{parse_int, parse_int-decimal}
use try_it_now.Base.Pieces.{split_at-none, split_at-append, has_char-decimal}
use try_it_now.Base.Text.{◌<>◌, decimal, split_at, fields, trim_space, after_prefix, is_some}

abbrev pub version_of_fields : List String → Option String
version_of_fields [] = none
version_of_fields (label ∷ []) = none
version_of_fields (label ∷ version ∷ others) = some version

-- The second word of the first line that begins with "Version:" and has one.
unfoldable pub version_line : List String → Option String
unfolding fields
version_line [] = none
version_line (line ∷ lines) =
    let later = version_line lines in
    if is_some (after_prefix "Version:" line)
    then elim (version_of_fields (fields line)) [ none ↦ later | some version ↦ some version ]
    else later

unfoldable pub extract_version : String → String
unfolding version_line
extract_version output = elim (version_line (split_at (λ d. d == b'\n') output)) [
  | none ↦ trim_space output
  | some version ↦ version
]

abbrev pub is_supported : Option ℤ → Option ℤ → Bool
is_supported (some (pos major)) (some (pos minor)) = ltb 3 major || (major == 3 && leb 11 minor)
is_supported (some (pos major)) (some (negsuc minor)) = ltb 3 major
is_supported (some (negsuc major)) (some minor) = false
is_supported _ _ = false

abbrev pub supported_parts : List String → Bool
supported_parts [] = false
supported_parts (major ∷ []) = false
supported_parts (major ∷ minor ∷ others) = is_supported (parse_int major) (parse_int minor)

unfoldable pub is_version_supported : String → Bool
unfolding split_at
is_version_supported version = supported_parts (split_at (λ d. d == b'.') version)

-- A version that is written major.minor, both below 2^63, is supported where it is 3.11 or later.
pub is_version_supported_lem :
    (major minor : ℕ)
    → major < 2 ^ 63
    → minor < 2 ^ 63
    → is_version_supported (decimal major <> ("." <> decimal minor))
      ≡ (ltb 3 major || (major == 3 && leb 11 minor))
unfolding is_version_supported
is_version_supported_lem major minor h k =
    rw (cons-append "." "" (decimal minor), nil-append (decimal minor))
      (ground (
        arith,
        split_at-append b'.' "." (decimal major) (decimal minor) refl
            (has_char-decimal b'.' major (omega arith)),
        split_at-none b'.' (decimal minor) (has_char-decimal b'.' minor (omega arith)),
        parse_int-decimal major h,
        parse_int-decimal minor k,
      ))
