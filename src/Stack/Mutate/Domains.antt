-- ===== src/Stack/Mutate/Domains.antt =====
-- The direct domains (internal/stack/mutate.go). `to_lower` is `strings.ToLower`.
use Prim.Native.Char.{code}
use zeroone.Prelude.{
  ℕ, String, Bool, true, false, not, ◌&&◌, ◌||◌, Option, none, some, List, [], ◌∷◌, ◌++◌, ◌==◌, leb,
  is_empty, append_text, if◌then◌else◌,
}
use zeroone.Stack.Defs.{Config}
use zeroone.Stack.Text.{cons, trim_space, split_at, strip_prefix}
use zeroone.Stack.Rules.{contains, net_split_host_port}
use zeroone.Stack.Mutate.Outcome.{Outcome, bad_domain, refuse}

-- The characters of a label, and those at its ends.
unfoldable pub is_alnum : ℕ → Bool
is_alnum n = (leb b'a' n && leb n b'z') || (leb b'0' n && leb n b'9')

-- What may follow: `[a-z0-9-]*[a-z0-9]`, or nothing; `last` is the character before.
ends_label : ℕ → String → Bool
unfolding is_alnum
ends_label last String.[] = is_alnum last
ends_label last (String.◌∷◌ c s) =
    let rest = ends_label (code c) s in (is_alnum (code c) || code c == b'-') && rest

is_label : String → Bool
unfolding ends_label
is_label String.[] = false
is_label (String.◌∷◌ c s) = is_alnum (code c) && ends_label (code c) s

all_labels : List String → Bool
unfolding is_label
all_labels [] = true
all_labels (l ∷ ls) = is_label l && all_labels ls

abbrev at_least_two : List String → Bool
at_least_two [] = false
at_least_two (l ∷ []) = false
at_least_two (l ∷ k ∷ ls) = all_labels (l ∷ k ∷ ls)

-- `validHostname`
unfoldable pub is_hostname : String → Bool
unfolding all_labels
is_hostname s = at_least_two (split_at b'.' s)

-- What stands behind the first `needle`, or all.
after_text : String → String → String → String
after_text needle whole String.[] = whole
after_text needle whole (String.◌∷◌ c s) =
    let rest = after_text needle whole s in
    elim (strip_prefix needle (String.◌∷◌ c s)) [ none ↦ rest | some after ↦ after ]

-- What stands before the first `/`, `?` or `#`.
before_path : String → String
before_path String.[] = String.[]
before_path (String.◌∷◌ c s) =
    let rest = before_path s in
    if code c == b'/' || code c == b'?' || code c == b'#' then String.[] else cons c rest

abbrev without_port : String → String
without_port s = elim (net_split_host_port s) [ none ↦ s | some (host, port) ↦ host ]

-- The first of the prefixes that the text has, with the rest.
unfoldable pub known_prefix : List String → String → Option (String × String)
known_prefix [] s = none
known_prefix (p ∷ ps) s =
    let more = known_prefix ps s in
    elim (strip_prefix p s) [ none ↦ more | some rest ↦ some (p, rest) ]

abbrev pub prefixes : List String
prefixes = "domain:" ∷ "full:" ∷ "regexp:" ∷ "geosite:" ∷ "ext:" ∷ []

abbrev checked_host : String → Option String
checked_host s = if is_empty s || not (is_hostname s) then none else some s

module _ (to_lower : String → String) where
  -- The host of what is no prefixed rule.
  unfoldable pub host_rule : String → Option String
  unfolding after_text before_path
  host_rule s =
      checked_host (trim_space (to_lower (without_port (before_path (after_text "://" s s)))))

  -- `NormalizeDomainRule`; `none` stands for its errors.
  unfoldable pub normalize_domain_rule : String → Option String
  normalize_domain_rule input =
      let s = trim_space input in
      if is_empty s then none else elim (known_prefix prefixes s) [
        | some (p, rest) ↦
            if is_empty (trim_space rest) then none else some (append_text p (trim_space rest))
        | none ↦ host_rule s
      ]

abbrev with_direct_domains : Config → List String → Config
with_direct_domains c ds = record c {
  xray = record (c.xray) { routing = record (c.xray.routing) { direct_domains = ds } };
}

unfoldable pub add_direct_domain : (String → String) → Config → String → Outcome
add_direct_domain to_lower c domain = elim (normalize_domain_rule to_lower domain) [
  | none ↦ refuse c bad_domain
  | some cleaned ↦
      if contains cleaned c.xray.routing.direct_domains
      then (c, none)
      else (with_direct_domains c (c.xray.routing.direct_domains ++ (cleaned ∷ [])), none)
]
