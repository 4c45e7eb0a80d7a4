-- ===== src/Api/Locked.antt =====
-- The bootstrap window of `tokenAuth` stays shut once there is an administrator (internal/api).
use zeroone.Prelude.{
  ◌≡◌, ◌∙◌, sym, ap, ◌⊎◌, inl, inr, arith, ℕ, ◌≤◌, String, Bool, true, Option, some, List, [],
  length,
}
use zeroone.Stack.{Config, Admin}
use zeroone.Api.Gate.{
  Request, serve, is_guarded, token_auth, InSession, HasToken, token_auth-serves,
}
use zeroone.Api.Store.{Server, load}
use zeroone.Api.Actions.{Action, acts}
use zeroone.Api.Safe.{AllSound, IsSafe, acts-Safe, load-Safe}

some-path : {c d : Config} → ◌≡◌ {A = Option Config} (some c) (some d) → c ≡ d
some-path h = cc

nobody-someone : (as' : List Admin) → as' ≡ [] → 1 ≤ length as' → ⊥
nobody-someone as' e h = omega (arith, ap length e)

module _ (is_cidr : String → Bool) (to_lower : String → String) (verify : String → String → Bool)
    (sign : String → String → String) (encode : String → String) (decode : String → Option String)
    (hash : String → String) (ip_is_loopback : String → Option Bool) where
  -- Once there is an administrator, nobody without credentials reaches a guarded handler again, unless
  -- a snapshot without one is returned to: from a server whose file is a configuration that `Validate`
  -- accepts with an administrator, and whose memory has one too, no two of one name in either, after
  -- any of the modelled requests in any order, where every snapshot that one of them returns to holds a
  -- configuration that `Validate` accepts with an administrator and no two of one name, a request that
  -- needs credentials is only served if its session cookie is verified with the secret in the file, or
  -- its bearer token has a hash in the file.
  pub locked-acts :
      (as' : List Action) (s : Server) (r : Request) (now : ℕ) (matched : String)
      → AllSound is_cidr as'
      → IsSafe is_cidr s
      → is_guarded r ≡ true
      → token_auth sign decode hash ip_is_loopback r
          (load is_cidr (acts is_cidr to_lower verify sign encode as' s))
          now
        ≡ serve matched
      → (c : Config) × (load is_cidr (acts is_cidr to_lower verify sign encode as' s) ≡ some c)
        × (InSession sign decode hash ip_is_loopback r c now
            ⊎ HasToken sign decode hash ip_is_loopback r c)
  locked-acts as' s r now matched sound safe guarded served =
      let (c, loaded, admitted) =
        token_auth-serves sign decode hash ip_is_loopback r _ now matched guarded served in
      let later = acts-Safe is_cidr to_lower verify sign encode as' s sound safe in
      (
        c,
        loaded,
        elim admitted [
          | inl session ↦ inl session
          | inr (inl token) ↦ inr token
          | inr (inr (nobody, _)) ↦
              let same : later.file ≡ c = some-path (sym (load-Safe is_cidr _ later) ∙ loaded) in
              absurd (nobody-someone c.panel.admins nobody (rw same at later.file_staffed.someone))
        ],
      )
