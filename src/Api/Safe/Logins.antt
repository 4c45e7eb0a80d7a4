-- ===== src/Api/Safe/Logins.antt =====
-- The log-in (internal/api/admins.go).
use zeroone.Prelude.{ℕ, refl, inl, inr, String, Bool, not, ◌||◌, Option, Option-cases, is_empty}
use zeroone.Prelude.Int.{pos}
use zeroone.Stack.{Config}
use zeroone.Stack.Text.{trim_space}
use zeroone.Stack.Mutate.Outcome.{update_first}
use zeroone.Stack.Mutate.Admins.{has_name}
use zeroone.Auth.Sessions.{issue_session}
use zeroone.Api.Store.{Server, with_cfg}
use zeroone.Api.Actions.{
  with_secret, find_admin, stamp_login, finish_login, ensure_secret, check_password, login,
}
use zeroone.Api.Safe.Kept.{
  Staffed, update-Staffed, IsSafe, with_cfg-Safe, load-Safe, save-Safe, saved-Safe, if-Safe,
  option-Safe,
}

stamp_login-Staffed :
    (name : String) (now : ℕ) (c : Config) → Staffed c → Staffed (stamp_login name now c)
unfolding stamp_login
stamp_login-Staffed name now c st =
    elim (Option-cases
      (update_first (has_name name) (λ a. record a { last_login = pos now }) c.panel.admins)) [
        | inl absent ↦ rw (absent, stamp_login) st
        | inr (bs, found) ↦
            rw (found, stamp_login)
              (update-Staffed name (λ a. record a { last_login = pos now }) c.panel.admins bs
                (λ a. refl) found st)
      ]

module _ (is_cidr : String → Bool) (to_lower : String → String) (verify : String → String → Bool)
    (sign : String → String → String) (encode : String → String) where
  finish_login-Safe :
      (name : String) (now : ℕ) (secret : String) (s : Server)
      → IsSafe is_cidr s
      → IsSafe is_cidr (finish_login is_cidr to_lower verify sign encode name now secret s).0
  unfolding finish_login
  finish_login-Safe name now secret s h =
      let st = stamp_login-Staffed name now s.cfg h.memory_staffed in
      option-Safe is_cidr (issue_session sign encode secret name now) _ _ h (λ issued.
        save-Safe is_cidr (with_cfg s (stamp_login name now s.cfg)) (stamp_login name now s.cfg) st
          (with_cfg-Safe is_cidr s (stamp_login name now s.cfg) st h))

  ensure_secret-Safe :
      (name : String) (now : ℕ) (fresh : Option String) (s : Server)
      → IsSafe is_cidr s
      → IsSafe is_cidr (ensure_secret is_cidr to_lower verify sign encode name now fresh s).0
  unfolding ensure_secret with_secret
  ensure_secret-Safe name now fresh s h =
      if-Safe is_cidr (not (is_empty s.cfg.panel.session_secret)) _ _
        (finish_login-Safe name now s.cfg.panel.session_secret s h)
        (option-Safe is_cidr fresh _ _ h (λ secret.
          saved-Safe is_cidr _ (pos 500) _
            (save-Safe is_cidr (with_cfg s (with_secret s.cfg secret)) (with_secret s.cfg secret)
              h.memory_staffed
              (with_cfg-Safe is_cidr s (with_secret s.cfg secret) h.memory_staffed h))
            (λ t k. finish_login-Safe name now secret t k)))

  pub login-Safe :
      (username password : String) (fresh : Option String) (now : ℕ) (s : Server)
      → IsSafe is_cidr s
      → IsSafe is_cidr (login is_cidr to_lower verify sign encode username password fresh now s).0
  unfolding login check_password
  login-Safe username password fresh now s h =
      let start = with_cfg-Safe is_cidr s h.file h.file_staffed h in
      if-Safe is_cidr (is_empty (trim_space username) || is_empty password) _ _ h (
        rw (load-Safe is_cidr s h) (
          option-Safe is_cidr (find_admin (trim_space username) h.file.panel.admins) _ _ start (λ a.
            if-Safe is_cidr (verify password a.password_hash) _ _
              (ensure_secret-Safe (trim_space username) now fresh (with_cfg s h.file) start)
              start)))
