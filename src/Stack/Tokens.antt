-- ===== src/Stack/Tokens.antt =====
-- The tokens of the subscription links (internal/stack/subtoken.go). `random` stands for the calls
-- of `randomToken`, numbered in their order.
use zeroone.Prelude.{
  ◌≡◌, ◌≢◌, ◌⊎◌, inl, inr, refl, ℕ, zero, suc, ◌+◌, ◌≤◌, ◌<◌, length, String, Bool, true, false,
  ◌||◌, Option, none, some, List, [], ◌∷◌, arith, str_eq, str_eq_iff, str_eq_refl, is_empty,
  get_elem?, if◌then◌else◌, Bool-cases,
}
use zeroone.Stack.Defs.{Config, User}

abbrev pub with_token : User → String → User
with_token u token = record u { sub_token = token }

find_token : String → List User → Option User
find_token token [] = none
find_token token (u ∷ us) = if str_eq u.sub_token token then some u else find_token token us

-- `UserBySubToken`; `none` stands for `User{}` and `false`.
unfoldable pub user_by_sub_token : Config → String → Option User
unfolding find_token
user_by_sub_token c token = if is_empty token then none else find_token token c.xray.users

module _ (random : ℕ → String) where
  -- The loop of `EnsureSubTokens`, the next call of `randomToken` being the `n`-th.
  fill_tokens : ℕ → List User → List User × Bool
  fill_tokens n [] = ([], false)
  fill_tokens n (u ∷ us) =
      let rest = fill_tokens (if is_empty u.sub_token then suc n else n) us in
      if is_empty u.sub_token
      then (with_token u (random n) ∷ rest.0, true)
      else (u ∷ rest.0, rest.1)

  -- `EnsureSubTokens`: the configuration it leaves and its answer.
  unfoldable pub ensure_sub_tokens : Config → Config × Bool
  unfolding fill_tokens
  ensure_sub_tokens c =
      let filled = fill_tokens 0 c.xray.users in
      (record c { xray = record c.xray { users = filled.0 } }, filled.1)

abbrev pub has_token : String → List User → Bool
has_token token [] = false
has_token token (u ∷ us) = str_eq u.sub_token token || has_token token us

-- No two users have the same token, where it is not empty.
abbrev pub Distinct : List User → Type 0
Distinct [] = Unit {0}
Distinct (u ∷ us) = ((u.sub_token ≡ "") ⊎ (has_token u.sub_token us ≡ false)) × Distinct us

-- Every user has a token of its own.
abbrev Owned : List User → Type 0
Owned [] = Unit {0}
Owned (u ∷ us) = (u.sub_token ≢ "") × (has_token u.sub_token us ≡ false) × Owned us

-- The tokens of the first `k` calls of `randomToken` are not empty, not in use, and different from each
-- other.
pub record IsFresh (random : ℕ → String) (k : ℕ) (us : List User) : Type 0 where
  pub filled : (n : ℕ) → n < k → random n ≢ ""
  pub new : (n : ℕ) → n < k → has_token (random n) us ≡ false
  pub apart : (m n : ℕ) → m < k → n < k → random m ≡ random n → m ≡ n

some-path : {u v : User} → ◌≡◌ {A = Option User} (some u) (some v) → u ≡ v
some-path h = cc

str_eq-false : {s t : String} → s ≢ t → str_eq s t ≡ false
str_eq-false {s} {t} h = ground (arith, str_eq_iff s t, h)

has_token-ne :
    (s t : String) (us : List User)
    → has_token s us ≡ false
    → has_token t us ≡ true
    → str_eq s t ≡ false
has_token-ne s t us absent here = str_eq-false (λ same. cc (absent, here, same))

find-Owned :
    (us : List User) (i : ℕ) {u : User}
    → Owned us
    → get_elem? us i ≡ some u
    → (find_token u.sub_token us ≡ some u) × (u.sub_token ≢ "") × (has_token u.sub_token us ≡ true)
unfolding find_token
find-Owned [] i o e = cc
find-Owned (v ∷ us) zero {u} (owned, own, rest) e =
    let same : v ≡ u = some-path e in
    rw⁻¹ same (rw (str_eq_refl v.sub_token), owned, rw (str_eq_refl v.sub_token))
find-Owned (v ∷ us) (suc i) {u} (owned, own, rest) e =
    let (found, filled, here) = find-Owned us i rest e in
    let other : str_eq v.sub_token u.sub_token ≡ false =
      has_token-ne v.sub_token u.sub_token us own here in
    (rw (other, found), filled, rw (other, here))

fill_tokens-new :
    (random : ℕ → String) (token : String) (n k : ℕ) (us : List User)
    → n + length us ≤ k
    → token ≢ ""
    → has_token token us ≡ false
    → ((m : ℕ) → n ≤ m → m < k → random m ≢ token)
    → has_token token (fill_tokens random n us).0 ≡ false
unfolding fill_tokens
fill_tokens-new random token n k [] within filled new apart = refl
fill_tokens-new random token n k (u ∷ us) within filled new apart =
    let head : str_eq (random n) token ≡ false =
      str_eq-false (apart n (omega arith) (omega (arith, within))) in
    let next : ℕ = if is_empty u.sub_token then suc n else n in
    let tail = fill_tokens-new random token next k us in ground (arith, head, tail, within)

own_token :
    (u : User) (us : List User)
    → u.sub_token ≢ ""
    → Distinct (u ∷ us)
    → has_token u.sub_token us ≡ false
own_token u us filled (free, rest) = elim free [ inl e ↦ absurd (filled e) | inr own ↦ own ]

IsFresh-tail :
    (random : ℕ → String) (k : ℕ) (u : User) (us : List User)
    → IsFresh random k (u ∷ us)
    → IsFresh random k us
IsFresh-tail random k u us fresh = record {
  filled = fresh.filled;
  new = λ n below. ground (arith, fresh.new n below);
  apart = fresh.apart;
}

fresh-ne :
    (random : ℕ → String) (k : ℕ) (u : User) (us : List User)
    → IsFresh random k (u ∷ us)
    → (n : ℕ) → n < k
    → random n ≢ u.sub_token
fresh-ne random k u us fresh n below same =
    ground (arith, fresh.new n below, str_eq_iff u.sub_token (random n), same)

fill_tokens-Owned :
    (random : ℕ → String) (n k : ℕ) (us : List User)
    → n + length us ≤ k
    → IsFresh random k us
    → Distinct us
    → Owned (fill_tokens random n us).0
unfolding fill_tokens
fill_tokens-Owned random n k [] within fresh d = tt
fill_tokens-Owned random n k (u ∷ us) within fresh d =
    let later = IsFresh-tail random k u us fresh in
    let below : n < k = omega (arith, within) in
    let after : suc n + length us ≤ k = omega (arith, within) in
    let here : n + length us ≤ k = omega (arith, within) in
    elim (Bool-cases (is_empty u.sub_token)) [
      | inl e ↦ rw e (
        fresh.filled n below,
        fill_tokens-new random (random n) (suc n) k us after (fresh.filled n below)
            (later.new n below)
            (λ m above under same. omega (arith, above, fresh.apart m n under below same)),
        fill_tokens-Owned random (suc n) k us after later d.1,
      )
      | inr e ↦
          let filled : u.sub_token ≢ "" =
            λ same. ground (arith, e, str_eq_iff u.sub_token "", same) in
          rw e (
            filled,
            fill_tokens-new random u.sub_token n k us here filled (own_token u us filled d)
                (λ m above under. fresh-ne random k u us fresh m under),
            fill_tokens-Owned random n k us here later d.1,
          )
    ]

-- The link of a user is that user's: where no two users have the same token and the tokens that
-- `randomToken` answers to as many calls as there are users are not empty, not yet in use and all
-- different, every user of the list that
-- `EnsureSubTokens` leaves has a token that is not empty, and `UserBySubToken` of that token answers
-- that user.
pub user_by_sub_token-ensure :
    (random : ℕ → String) (c : Config)
    → IsFresh random (length c.xray.users) c.xray.users
    → Distinct c.xray.users
    → (i : ℕ) (u : User) → get_elem? (ensure_sub_tokens random c).0.xray.users i ≡ some u
    → (u.sub_token ≢ "") × (user_by_sub_token (ensure_sub_tokens random c).0 u.sub_token ≡ some u)
unfolding user_by_sub_token ensure_sub_tokens
user_by_sub_token-ensure random c fresh d i u e =
    let (found, filled, _) =
      find-Owned (fill_tokens random 0 c.xray.users).0 i
        (fill_tokens-Owned random 0 (length c.xray.users) c.xray.users (omega arith) fresh d) e in
    let full : is_empty u.sub_token ≡ false = str_eq-false filled in (filled, rw (full, found))
