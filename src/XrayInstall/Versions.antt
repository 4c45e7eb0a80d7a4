-- ===== src/XrayInstall/Versions.antt =====
-- Version names (internal/xrayinstall/versions.go).
use Prim.Native.Char.{code}
use zeroone.Prelude.{
  ℕ, ◌+◌, String, Bool, true, false, not, ◌&&◌, ◌||◌, Option, none, some, List, [], ◌∷◌, ◌==◌, leb,
  str_eq, if◌then◌else◌,
}
use zeroone.Prelude.Int.{ℤ, pos, negsuc, ltb_ℤ}
use zeroone.Stack.Text.{cons, trim_space, split_at, strip_prefix, atoi}
use zeroone.Stack.Text.Search.{has_text}

-- The characters of `versionTokenRE`.
unfoldable pub is_token_char : ℕ → Bool
is_token_char n =
    (leb b'A' n && leb n b'Z')
    || (leb b'a' n && leb n b'z')
    || (leb b'0' n && leb n b'9')
    || n == b'.'
    || n == b'_'
    || n == b'+'
    || n == b'-'

all_token_chars : String → Bool
unfolding is_token_char
all_token_chars String.[] = true
all_token_chars (String.◌∷◌ c s) = is_token_char (code c) && all_token_chars s

pub count_chars : String → ℕ
count_chars String.[] = 0
count_chars (String.◌∷◌ c s) = count_chars s + 1

-- `ValidateVersionToken`: whether it reports no error.
unfoldable pub validate_version_token : String → Bool
unfolding all_token_chars count_chars
validate_version_token v =
    if not (all_token_chars v && leb 1 (count_chars v) && leb (count_chars v) 64)
    then false
    else not (str_eq v "." || str_eq v ".." || has_text ".." v)

-- The text before the first `-` or `+`.
before_suffix : String → String
before_suffix String.[] = String.[]
before_suffix (String.◌∷◌ c s) =
    let rest = before_suffix s in
    if code c == b'-' || code c == b'+' then String.[] else cons c rest

without_v : String → String
without_v s = elim (strip_prefix "v" s) [ none ↦ s | some rest ↦ rest ]

abbrev pub Semver : Type 0
Semver = ℤ × ℤ × ℤ

numbers : Option ℤ → Option ℤ → Option ℤ → Option Semver
numbers (some a) (some b) (some c) = some (a, b, c)
numbers _ _ _ = none

semver_of : List String → Option Semver
unfolding numbers
semver_of [] = none
semver_of (a ∷ []) = none
semver_of (a ∷ b ∷ []) = numbers (atoi a) (atoi b) (some (pos 0))
semver_of (a ∷ b ∷ c ∷ more) = numbers (atoi a) (atoi b) (atoi c)

-- `parseSemver`; `none` stands for its `false`.
unfoldable pub parse_semver : String → Option Semver
unfolding before_suffix without_v semver_of
parse_semver s = semver_of (split_at b'.' (before_suffix (without_v (trim_space s))))

-- A round of the loop: `rest` is what the further rounds answer.
unfoldable pub compare_part : ℤ → ℤ → ℤ → ℤ
compare_part a b rest = if ltb_ℤ a b then negsuc 0 else if ltb_ℤ b a then pos 1 else rest

unfoldable pub compare_parts : Semver → Semver → ℤ
compare_parts (a, b, c) (d, e, f) = compare_part a d (compare_part b e (compare_part c f (pos 0)))

unfoldable pub compare_parsed : Option Semver → Option Semver → ℤ
compare_parsed none none = pos 0
compare_parsed none (some w) = negsuc 0
compare_parsed (some v) none = pos 1
compare_parsed (some v) (some w) = compare_parts v w

-- `CompareVersions`
unfoldable pub compare_versions : String → String → ℤ
compare_versions a b = compare_parsed (parse_semver a) (parse_semver b)
