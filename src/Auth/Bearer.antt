-- ===== src/Auth/Bearer.antt =====
-- The bearer tokens of the panel (internal/auth/tokens.go). `hash` stands for the SHA-256 digest.
use zeroone.Prelude.{
  ◌≡◌, ◌⊎◌, inl, inr, refl, String, Bool, true, false, ◌||◌, Option, none, some, List, [], ◌∷◌,
  str_eq, is_empty, if◌then◌else◌, Bool-cases,
}
use zeroone.Stack.Text.{trim_space, strip_prefix}

unfoldable pub is_known : String → List String → Bool
is_known h [] = false
is_known h (k ∷ ks) = str_eq k h || is_known h ks

-- The token of a `Bearer` header.
unfoldable pub bearer_token : String → Option String
bearer_token header = elim (strip_prefix "Bearer " header) [
  | none ↦ none
  | some rest ↦ some (trim_space rest)
]

module _ (hash : String → String) where
  known_hash : String → List String → String × Bool
  known_hash candidate known = if is_known candidate known then (candidate, true) else ("", false)

  hash_of : Option String → List String → String × Bool
  unfolding known_hash
  hash_of none known = ("", true)
  hash_of (some token) known = if is_empty token then ("", false) else known_hash (hash token) known

  -- `LookupHash`
  unfoldable pub lookup_hash : String → List String → String × Bool
  unfolding hash_of
  lookup_hash header known = hash_of (bearer_token header) known

  -- The header carries the token of a known hash.
  abbrev pub Carries : String → List String → Type 0
  Carries header known =
      (token : String) × (bearer_token header ≡ some token) × (is_known (hash token) known ≡ true)

  known_hash-none :
      (token : String) (known : List String)
      → is_known (hash token) known ≡ false
      → (hash_of (some token) known).1 ≡ false
  unfolding hash_of known_hash
  known_hash-none token known e = elim (Bool-cases (is_empty token)) [
    | inl f ↦ rw f
    | inr f ↦ rw (f, e)
  ]

  hash_of-answers :
      (o : Option String) (known : List String)
      → (hash_of o known).1 ≡ true
      → ((o ≡ none) × ((hash_of o known).0 ≡ ""))
        ⊎ ((token : String) × (o ≡ some token) × (is_known (hash token) known ≡ true))
  unfolding hash_of known_hash
  hash_of-answers none known h = inl (refl, refl)
  hash_of-answers (some token) known h = elim (Bool-cases (is_known (hash token) known)) [
    | inl e ↦ inr (token, refl, e)
    | inr e ↦
        let refused : (hash_of (some token) known).1 ≡ false = known_hash-none token known e in
        absurd (cc (h, refused))
  ]

  -- What `LookupHash` lets pass: no bearer token, or one of a known hash.
  pub lookup_hash-answers :
      (header : String) (known : List String)
      → (lookup_hash header known).1 ≡ true
      → ((bearer_token header ≡ none) × ((lookup_hash header known).0 ≡ "")) ⊎ Carries header known
  unfolding lookup_hash
  lookup_hash-answers header known h = hash_of-answers (bearer_token header) known h
