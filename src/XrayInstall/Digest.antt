-- ===== src/XrayInstall/Digest.antt =====
-- The digest that a release publishes (internal/xrayinstall/verify.go). `to_upper` and `to_lower` stand
-- for those of Go's strings package.
use Prim.Native.Char.{code}
use zeroone.Prelude.{
  String, Bool, true, false, ◌&&◌, ◌||◌, Option, none, some, List, [], ◌∷◌, ◌==◌, leb, is_empty,
  if◌then◌else◌,
}
use zeroone.Stack.Text.{trim_space, split_at, cut, strip_prefix}
use zeroone.Stack.Text.Search.{words}
use zeroone.XrayInstall.Versions.{count_chars}

has_prefix : String → String → Bool
has_prefix prefix s = elim (strip_prefix prefix s) [ none ↦ false | some rest ↦ true ]

all_hex : String → Bool
all_hex String.[] = true
all_hex (String.◌∷◌ c s) =
    ((leb b'0' (code c) && leb (code c) b'9')
      || (leb b'a' (code c) && leb (code c) b'f')
      || (leb b'A' (code c) && leb (code c) b'F'))
    && all_hex s

-- `isHex64`
unfoldable pub is_hex64 : String → Bool
unfolding all_hex
is_hex64 s = (count_chars s == 64) && all_hex s

-- What stands behind the first `=`, or behind the first `:` where there is no `=`.
after_separator : String → String
after_separator line = elim (cut b'=' line) [
  | some (before, after) ↦ after
  | none ↦ elim (cut b':' line) [ some (before, after) ↦ after | none ↦ line ]
]

last_word : List String → Option String
last_word [] = none
last_word (w ∷ []) = some w
last_word (w ∷ v ∷ ws) = last_word (v ∷ ws)

module _ (to_upper to_lower : String → String) where
  candidate : String → Option String
  unfolding last_word after_separator
  candidate line = elim (last_word (words (trim_space (after_separator line)))) [
    | none ↦ none
    | some w ↦ if is_hex64 (to_lower w) then some (to_lower w) else none
  ]

  -- A round of the loop over the lines.
  unfoldable pub digest_of_line : String → Option String
  unfolding has_prefix candidate
  digest_of_line line =
      if is_empty line
      then none
      else if has_prefix "SHA2-256" (to_upper line) || has_prefix "SHA256" (to_upper line)
      then candidate line
      else none

  unfoldable pub first_digest : List String → Option String
  first_digest [] = none
  first_digest (line ∷ lines) =
      let rest = first_digest lines in
      elim (digest_of_line (trim_space line)) [ some sha ↦ some sha | none ↦ rest ]

  -- `ParseDigest`; `none` stands for its error.
  unfoldable pub parse_digest : String → Option String
  parse_digest body = first_digest (split_at b'\n' body)
