-- ===== src/Stack/Text.antt =====
-- The parts of Go's `strings`, `strconv` and `net` that the configuration uses on texts, and the
-- two parsers of internal/stack/config.go that stand on them.
pub mod Decimal
pub mod Cuts
pub mod Search
use Prim.Native.Char.{Char, code}
use zeroone.Prelude.{
  ℕ, zero, suc, ◌+◌, ◌-◌, ◌*◌, ◌^◌, ◌≤◌, ◌≡◌, arith, String, Bool, false, ◌&&◌, ◌||◌, Option, none,
  some, List, [], ◌∷◌, ltb, leb, ◌==◌, is_empty, if◌then◌else◌,
}
use zeroone.Prelude.Int.{ℤ, pos, negsuc}

-- `unicode.IsSpace`.
unfoldable pub is_space : Char → Bool
is_space c =
    let n : ℕ = code c in
    (leb 9 n && leb n 13)
    || n == 0x20
    || n == 0x85
    || n == 0xA0
    || n == 0x1680
    || (leb 0x2000 n && leb n 0x200a)
    || n == 0x2028
    || n == 0x2029
    || n == 0x202f
    || n == 0x205f
    || n == 0x3000

abbrev pub cons : Char → String → String
cons c s = String.◌∷◌ c s

trim_left : String → String
unfolding is_space
trim_left String.[] = String.[]
trim_left (String.◌∷◌ c s) = let rest = trim_left s in if is_space c then rest else cons c s

trim_right : String → String
unfolding is_space
trim_right String.[] = String.[]
trim_right (String.◌∷◌ c s) =
    let rest = trim_right s in if is_space c && is_empty rest then String.[] else cons c rest

-- `strings.TrimSpace`.
unfoldable pub trim_space : String → String
unfolding trim_left trim_right
trim_space s = trim_right (trim_left s)

-- `s[0] == c`, for an ASCII `c`; `false` for the empty text.
unfoldable pub begins_with : ℕ → String → Bool
begins_with n String.[] = false
begins_with n (String.◌∷◌ c s) = code c == n

unfoldable pub has_char : ℕ → String → Bool
has_char n String.[] = false
has_char n (String.◌∷◌ c s) = code c == n || has_char n s

-- `s[len(prefix):]` where `strings.HasPrefix`.
unfoldable pub strip_prefix : String → String → Option String
strip_prefix String.[] s = some s
strip_prefix (String.◌∷◌ c prefix) String.[] = none
strip_prefix (String.◌∷◌ c prefix) (String.◌∷◌ d s) =
    let rest = strip_prefix prefix s in if code c == code d then rest else none

add_head : Char → List String → List String
add_head c [] = cons c String.[] ∷ []
add_head c (w ∷ ws) = cons c w ∷ ws

-- `strings.Split` at a character: always at least one piece.
unfoldable pub split_at : ℕ → String → List String
unfolding add_head
split_at n String.[] = String.[] ∷ []
split_at n (String.◌∷◌ c s) =
    let rest = split_at n s in if code c == n then String.[] ∷ rest else add_head c rest

unfoldable pub cut_cons : Char → Option (String × String) → Option (String × String)
cut_cons c none = none
cut_cons c (some (a, b)) = some (cons c a, b)

-- `strings.Cut` at a character: the parts before and after its first occurrence.
unfoldable pub cut : ℕ → String → Option (String × String)
unfolding cut_cons
cut n String.[] = none
cut n (String.◌∷◌ c s) =
    let rest = cut n s in if code c == n then some (String.[], s) else cut_cons c rest

-- The same at the last occurrence (`strings.LastIndex`).
unfoldable pub cut_last : ℕ → String → Option (String × String)
unfolding cut_cons
cut_last n String.[] = none
cut_last n (String.◌∷◌ c s) = elim (cut_last n s) [
  | some (a, b) ↦ some (cons c a, b)
  | none ↦ if code c == n then some (String.[], s) else none
]

pub digits_from : ℕ → String → Option ℕ
digits_from acc String.[] = some acc
digits_from acc (String.◌∷◌ c s) =
    let rest = digits_from (acc * 10 + (code c - b'0')) s in
    if leb b'0' (code c) && leb (code c) b'9' then rest else none

-- At least one digit.
pub unsigned : String → Option ℕ
unfolding digits_from
unsigned String.[] = none
unsigned (String.◌∷◌ c s) = digits_from 0 (cons c s)

abbrev pub non_negative : Option ℕ → Option ℤ
non_negative none = none
non_negative (some n) = if ltb n (2 ^ 63) then some (pos n) else none

abbrev pub negative : Option ℕ → Option ℤ
negative none = none
negative (some zero) = some (pos 0)
negative (some (suc n)) = if ltb n (2 ^ 63) then some (negsuc n) else none

-- `strconv.Atoi`: a sign, then decimal digits, in the range of a 64-bit `int`.
unfoldable pub atoi : String → Option ℤ
unfolding unsigned
atoi String.[] = none
atoi (String.◌∷◌ c s) =
    if code c == b'-'
    then negative (unsigned s)
    else if code c == b'+'
    then non_negative (unsigned s)
    else non_negative (unsigned (cons c s))

in_range : ℕ → Option ℤ → Option ℕ
in_range top none = none
in_range top (some (negsuc n)) = none
in_range top (some (pos n)) = if leb n top then some n else none

both : Option ℕ → Option ℕ → Option (ℕ × ℕ)
both (some h) (some m) = some (h, m)
both _ _ = none

hhmm_parts : List String → Option (ℕ × ℕ)
unfolding in_range both
hhmm_parts (h ∷ m ∷ []) = both (in_range 23 (atoi h)) (in_range 59 (atoi m))
hhmm_parts _ = none

-- `ParseHHMM`; `none` stands for each of its errors.
unfoldable pub parse_hhmm : String → Option (ℕ × ℕ)
unfolding trim_space split_at atoi hhmm_parts
parse_hhmm s = hhmm_parts (split_at b':' (trim_space s))

in_range-bounds : (top : ℕ) (o : Option ℤ) {n : ℕ} → in_range top o ≡ some n → n ≤ top
unfolding in_range
in_range-bounds top none h = cc
in_range-bounds top (some (negsuc n)) h = cc
in_range-bounds top (some (pos n)) h = ground arith

both-parts : (o p : Option ℕ) {h m : ℕ} → both o p ≡ some (h, m) → (o ≡ some h) × (p ≡ some m)
unfolding both
both-parts (some h) (some m) e = (cc, cc)
both-parts none p e = cc
both-parts (some h) none e = cc

hhmm_parts-bounds :
    (parts : List String) {h m : ℕ} → hhmm_parts parts ≡ some (h, m) → (h ≤ 23) × (m ≤ 59)
unfolding hhmm_parts
hhmm_parts-bounds [] e = cc
hhmm_parts-bounds (a ∷ []) e = cc
hhmm_parts-bounds (a ∷ b ∷ c ∷ rest) e = cc
hhmm_parts-bounds (a ∷ b ∷ []) e =
    let (hour, minute) = both-parts (in_range 23 (atoi a)) (in_range 59 (atoi b)) e in
    (in_range-bounds 23 (atoi a) hour, in_range-bounds 59 (atoi b) minute)

-- A text that `ParseHHMM` accepts is a time of the day.
pub parse_hhmm-bounds : (s : String) {h m : ℕ} → parse_hhmm s ≡ some (h, m) → (h ≤ 23) × (m ≤ 59)
unfolding parse_hhmm
parse_hhmm-bounds s e = hhmm_parts-bounds (split_at b':' (trim_space s)) e
