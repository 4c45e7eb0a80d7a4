-- ===== src/Api/Gate.antt =====
-- Which requests reach a handler: `tokenAuth` (internal/api/server.go). `sign`, `decode` and `hash`
-- are those of internal/auth; `ip_is_loopback` stands for `net.ParseIP`, with none for nil, and
-- `IsLoopback` of its answer.
use zeroone.Prelude.{
  ◌≡◌, ◌≢◌, ◌⊎◌, inl, inr, refl, String, Bool, true, false, not, ◌&&◌, ◌||◌, Option, none, some,
  List, [], ◌∷◌, map, str_eq, str_eq_iff, is_empty, if◌then◌else◌, Bool-cases,
}
use zeroone.Prelude.{ℕ}
use zeroone.Stack.{Config, ApiToken, Admin}
use zeroone.Stack.Text.{strip_prefix}
use zeroone.Stack.Rules.{net_split_host_port}
use zeroone.Xray.Outbounds.{no_items}
use zeroone.Auth.Sessions.{verify_session}
use zeroone.Auth.Bearer.{lookup_hash, Carries, bearer_token, lookup_hash-answers}

-- What a request shows: its session cookie is none where it has none.
pub record Request : Type 0 where
  pub method : String
  pub path : String
  pub authorization : String
  pub cookie : Option String
  pub remote_addr : String

-- `serve` with the hash that the token matched; `refuse` is a 401.
pub data Verdict : Type 0 where
  serve : (matched : String) → Verdict
  refuse : (reason : String) → Verdict

abbrev has_prefix : String → String → Bool
has_prefix prefix s = elim (strip_prefix prefix s) [ none ↦ false | some rest ↦ true ]

unfoldable pub is_public : String → Bool
is_public path =
    str_eq path "/api/login"
    || str_eq path "/api/logout"
    || str_eq path "/api/me"
    || str_eq path "/api/health"

-- The request needs credentials.
unfoldable pub is_guarded : Request → Bool
unfolding is_public
is_guarded r = has_prefix "/api/" r.path && not (is_public r.path)

abbrev hashes : List ApiToken → List String
hashes ts = map (λ t. t.hash) ts

unfoldable pub creates_first_admin : Request → Bool
creates_first_admin r = str_eq r.method "POST" && str_eq r.path "/api/admins"

module _ (ip_is_loopback : String → Option Bool) where
  host_is_loopback : String → Bool
  host_is_loopback host =
      if is_empty host
      then false
      else elim (ip_is_loopback host) [ none ↦ str_eq host "localhost" | some b ↦ b ]

  -- `isLoopbackRemote`
  unfoldable pub is_loopback_remote : Request → Bool
  unfolding host_is_loopback
  is_loopback_remote r = elim (net_split_host_port r.remote_addr) [
    | none ↦ host_is_loopback r.remote_addr
    | some (host, port) ↦ host_is_loopback host
  ]

module _ (sign : String → String → String) (decode : String → Option String)
    (hash : String → String) (ip_is_loopback : String → Option Bool) where
  -- `SessionFromRequest`
  unfoldable pub session_from_request : Request → String → ℕ → String
  session_from_request r secret now = elim r.cookie [
    | none ↦ ""
    | some token ↦ verify_session sign decode secret token now
  ]

  -- From `LookupHash` on.
  check_token : Request → Config → String × Bool → Verdict
  check_token r c (matched, false) = refuse "invalid bearer token"
  check_token r c (matched, true) =
      if not (is_empty matched)
      then serve matched
      else if not (no_items c.panel.admins)
      then refuse "login required"
      else if not (creates_first_admin r) && not (is_loopback_remote ip_is_loopback r)
      then refuse "login required"
      else serve ""

  -- A guarded request, with what `stack.Load` answers.
  check_credentials : Request → Option Config → ℕ → Verdict
  unfolding check_token
  check_credentials r none now = refuse "login required"
  check_credentials r (some c) now =
      if not (is_empty (session_from_request r c.panel.session_secret now))
      then serve ""
      else check_token r c (lookup_hash hash r.authorization (hashes c.panel.tokens))

  -- `tokenAuth`
  unfoldable pub token_auth : Request → Option Config → ℕ → Verdict
  unfolding check_credentials
  token_auth r loaded now = if is_guarded r then check_credentials r loaded now else serve ""

  abbrev pub InSession : Request → Config → ℕ → Type 0
  InSession r c now = session_from_request r c.panel.session_secret now ≢ ""

  abbrev pub HasToken : Request → Config → Type 0
  HasToken r c = Carries hash r.authorization (hashes c.panel.tokens)

  -- Nobody can log in yet, and the request creates the first administrator or is local.
  abbrev pub InBootstrap : Request → Config → Type 0
  InBootstrap r c =
      (c.panel.admins ≡ [])
      × ((creates_first_admin r ≡ true) ⊎ (is_loopback_remote ip_is_loopback r ≡ true))

  bootstrap-open :
      (creates loopback : Bool) (as' : List Admin) {matched : String}
      → (if not (no_items as')
          then refuse "login required"
          else if not creates && not loopback
          then refuse "login required"
          else serve "")
        ≡ serve matched
      → (as' ≡ []) × ((creates ≡ true) ⊎ (loopback ≡ true))
  bootstrap-open creates loopback (a ∷ as') h = cc
  bootstrap-open true loopback [] h = (refl, inl refl)
  bootstrap-open false true [] h = (refl, inr refl)
  bootstrap-open false false [] h = cc

  check_token-bootstrap :
      (r : Request) (c : Config) {m matched : String}
      → m ≡ ""
      → check_token r c (m, true) ≡ serve matched
      → InBootstrap r c
  unfolding check_token
  check_token-bootstrap r c {m} e h =
      let unmatched : is_empty m ≡ true = (str_eq_iff m "").1 e in
      bootstrap-open (creates_first_admin r) (is_loopback_remote ip_is_loopback r) c.panel.admins
        (rw unmatched at h)

  check_token-serves :
      (r : Request) (c : Config) (answer : String × Bool) {matched : String}
      → (answer.1 ≡ true → ((bearer_token r.authorization ≡ none) × (answer.0 ≡ "")) ⊎ HasToken r c)
      → check_token r c answer ≡ serve matched
      → HasToken r c ⊎ InBootstrap r c
  unfolding check_token
  check_token-serves r c (m, false) from h = cc
  check_token-serves r c (m, true) from h = elim (from refl) [
    | inl (_, unmatched) ↦ inr (check_token-bootstrap r c unmatched h)
    | inr token ↦ inl token
  ]

  -- Who reaches a guarded handler: where a request that needs credentials is served, the
  -- configuration file could be loaded, and the request has a session cookie that is verified with
  -- the secret of the file, or the bearer token of a hash in the file, or the file has no
  -- administrator yet and the request creates one or comes from the host itself.
  pub token_auth-serves :
      (r : Request) (loaded : Option Config) (now : ℕ) (matched : String)
      → is_guarded r ≡ true
      → token_auth r loaded now ≡ serve matched
      → (c : Config) × (loaded ≡ some c) × (InSession r c now ⊎ (HasToken r c ⊎ InBootstrap r c))
  unfolding token_auth check_credentials
  token_auth-serves r none now matched guarded h = cc (rw guarded at h)
  token_auth-serves r (some c) now matched guarded h =
      elim (Bool-cases (is_empty (session_from_request r c.panel.session_secret now))) [
        | inl none_given ↦ (
          c,
          refl,
          inr (
              check_token-serves r c (lookup_hash hash r.authorization (hashes c.panel.tokens))
                (lookup_hash-answers hash r.authorization (hashes c.panel.tokens))
                (rw (guarded, none_given) at h)),
        )
        | inr given ↦ (
          c,
          refl,
          inl (λ e.
              cc (given, (str_eq_iff (session_from_request r c.panel.session_secret now) "").1 e)),
        )
      ]

  -- Nothing else is asked of a request without credentials that creates the first administrator.
  pub token_auth-bootstrap :
      (r : Request) (c : Config) (now : ℕ)
      → is_guarded r ≡ true
      → creates_first_admin r ≡ true
      → r.cookie ≡ none
      → bearer_token r.authorization ≡ none
      → c.panel.admins ≡ []
      → token_auth r (some c) now ≡ serve ""
  unfolding token_auth check_credentials check_token session_from_request lookup_hash
      creates_first_admin
  token_auth-bootstrap r c now guarded creates no_cookie no_token nobody =
      rw (guarded, no_cookie, no_token, nobody, creates) refl
