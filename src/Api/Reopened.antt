-- ===== src/Api/Reopened.antt =====
-- The bootstrap window of `tokenAuth` after the return to a snapshot (internal/api/observability.go).
use zeroone.Prelude.{
  ℕ, ◌≡◌, ◌≢◌, ◌∙◌, refl, ap, arith, String, Bool, true, false, Option, none, some, [], str_eq_iff,
  is_empty,
}
use zeroone.Stack.{Config}
use zeroone.Auth.Bearer.{bearer_token}
use zeroone.Api.Gate.{
  Request, serve, is_guarded, creates_first_admin, token_auth, token_auth-bootstrap,
}
use zeroone.Api.Store.{Server, is_valid, load}
use zeroone.Api.Settings.{held, restore, roll_back}

load-roll_back :
    (is_cidr : String → Bool) (id : String) (c : Config) (copied : Bool) (s : Server)
    → id ≢ ""
    → is_valid is_cidr c ≡ true
    → load is_cidr (roll_back true id (held (some c) copied) s).0 ≡ some c
unfolding load roll_back restore
load-roll_back is_cidr id c copied s named valid =
    let filled : is_empty id ≡ false = ground (arith, str_eq_iff id "", named) in
    rw (filled, valid) refl

-- The return to a snapshot can open the panel again: where its file is a configuration that `Validate`
-- accepts, without an administrator, then after the return to it, whatever the server had before in
-- memory and in the file, and whether the file for Xray can be copied too, a request that creates an
-- administrator is served without a session cookie and a bearer token.
pub token_auth-roll_back :
    (is_cidr : String → Bool) (sign : String → String → String) (decode : String → Option String)
    (hash : String → String) (ip_is_loopback : String → Option Bool) (id : String) (c : Config)
    (copied : Bool) (s : Server) (r : Request) (now : ℕ)
    → id ≢ ""
    → is_valid is_cidr c ≡ true
    → c.panel.admins ≡ []
    → is_guarded r ≡ true
    → creates_first_admin r ≡ true
    → r.cookie ≡ none
    → bearer_token r.authorization ≡ none
    → token_auth sign decode hash ip_is_loopback r
        (load is_cidr (roll_back true id (held (some c) copied) s).0)
        now
      ≡ serve ""
token_auth-roll_back is_cidr sign decode hash ip_is_loopback id c copied s r now named valid nobody
      guarded creates no_cookie no_token =
    ap (λ loaded. token_auth sign decode hash ip_is_loopback r loaded now)
      (load-roll_back is_cidr id c copied s named valid)
    ∙ token_auth-bootstrap sign decode hash ip_is_loopback r c now guarded creates no_cookie
        no_token nobody
