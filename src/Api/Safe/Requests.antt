-- ===== src/Api/Safe/Requests.antt =====
-- The handlers for users, administrators, tokens and quotas (internal/api/server.go, admins.go,
-- tokens.go).
use zeroone.Prelude.{
  ℕ, refl, inl, inr, String, Bool, false, not, ◌||◌, str_eq, Option, none, some, List, [], ◌∷◌,
  Bool-cases, Option-cases, is_empty, ltb,
}
use zeroone.Prelude.Int.{ℤ, pos}
use zeroone.Stack.{Config}
use zeroone.Stack.Mutate.Outcome.{Outcome, any_of, update_first}
use zeroone.Stack.Mutate.Admins.{has_name, add_admin}
use zeroone.Stack.Mutate.Users.{set_user_enabled}
use zeroone.Stack.Mutate.Tunnels.{set_failover_mode}
use zeroone.Stack.Mutate.Tunnels.{delete_direct_domain}
use zeroone.Stack.Session.Panel.{set_user_enabled-Keeps, set_failover_mode-Keeps}
use zeroone.Stack.Session.Admins.{add_admin-Staffed, call-Staffed}
use zeroone.Enforce.{and_then, QuotaAction, apply_actions, plan_quota, apply_quota_plan}
use zeroone.Failover.{Check, Mode, proxy_tag, apply_mode}
use zeroone.Usage.{UserState}
use zeroone.Api.Store.{Server, Reply, done, failed, with_cfg, save_config}
use zeroone.Api.Users.{Asked, perform, with_reply}
use zeroone.Api.Handlers.{
  with_tokens, has_id, stamp_created, create_admin, chosen_mode, admin_create, token_create,
  token_delete, touch_token, save_quota, quota_apply, switch_failover,
}
use zeroone.Api.Safe.Kept.{
  Staffed, Kept, update-Staffed, IsSafe, with_cfg-Safe, load-Safe, save-Safe, saved-Safe,
  settle-Safe, if-Safe, option-Safe, commit-Safe, in_memory-Safe,
}

stamp_created-Staffed :
    (name : String) (now : ℤ) (c : Config) → Staffed c → Staffed (stamp_created name now c)
unfolding stamp_created
stamp_created-Staffed name now c st =
    elim (Option-cases
      (update_first (has_name name) (λ a. record a { created_at = now }) c.panel.admins)) [
        | inl absent ↦ rw absent st
        | inr (bs, found) ↦ rw found (
            update-Staffed name (λ a. record a { created_at = now }) c.panel.admins bs (λ a. refl)
              found st)
      ]

module _ (is_cidr : String → Bool) where
  and_then-Staffed :
      (o : Outcome) (k : Config → Outcome)
      → Staffed o.0
      → ((c : Config) → Staffed c → Staffed (k c).0)
      → Staffed (and_then o k).0
  and_then-Staffed (c, none) k st g = g c st
  and_then-Staffed (c, some e) k st g = st

  create_admin-Staffed : (name hash : String) (now : ℤ) → Kept (create_admin is_cidr name hash now)
  unfolding create_admin
  create_admin-Staffed name hash now c st =
      and_then-Staffed (add_admin is_cidr c name hash) (λ d. (stamp_created name now d, none))
        (add_admin-Staffed is_cidr c name hash st) (λ d st'. stamp_created-Staffed name now d st')

  pub admin_create-Safe :
      (name : String) (n : ℕ) (hash : Option String) (now : ℤ) (s : Server)
      → IsSafe is_cidr s
      → IsSafe is_cidr (admin_create is_cidr name n hash now s).0
  unfolding admin_create
  admin_create-Safe name n hash now s h = if-Safe is_cidr (is_empty name || ltb n 8) _ _ h (
      option-Safe is_cidr hash _ _ h (λ k.
        in_memory-Safe is_cidr (create_admin is_cidr name k now) (pos 400) s
          (create_admin-Staffed name k now) h))

  pub token_create-Safe :
      (id scope : String) (hash : Option String) (now : ℤ) (s : Server)
      → IsSafe is_cidr s
      → IsSafe is_cidr (token_create is_cidr id scope hash now s).0
  unfolding token_create
  token_create-Safe id scope hash now s h = if-Safe is_cidr (is_empty id) _ _ h (
      if-Safe is_cidr (any_of (has_id id) s.cfg.panel.tokens) _ _ h (
        option-Safe is_cidr hash _ _ h
          (λ k. commit-Safe is_cidr (with_cfg s _) (with_cfg-Safe is_cidr s _ h.memory_staffed h))))

  pub token_delete-Safe :
      (id : String) (s : Server) → IsSafe is_cidr s → IsSafe is_cidr (token_delete is_cidr id s).0
  unfolding token_delete
  token_delete-Safe id s h = if-Safe is_cidr (is_empty id) _ _ h (
      if-Safe is_cidr (not (any_of (has_id id) s.cfg.panel.tokens)) _ _ h
        (commit-Safe is_cidr (with_cfg s _) (with_cfg-Safe is_cidr s _ h.memory_staffed h)))

  pub touch_token-Safe :
      (hash : String) (now : ℤ) (s : Server)
      → IsSafe is_cidr s
      → IsSafe is_cidr (touch_token is_cidr hash now s)
  unfolding touch_token
  touch_token-Safe hash now s h =
      rw (load-Safe is_cidr s h, touch_token)
        (elim (Option-cases (
          update_first (λ t. str_eq t.hash hash) (λ t. record t { last_used = now })
            h.file.panel.tokens)) [
              | inl absent ↦ rw (absent, touch_token) h
              | inr (ts, found) ↦
                  rw (found, touch_token)
                    (save-Safe is_cidr s (with_tokens h.file ts) h.file_staffed h)
            ])

  apply_actions-Staffed : (as' : List QuotaAction) → Kept (λ c. apply_actions is_cidr c as')
  unfolding apply_actions
  apply_actions-Staffed [] c st = st
  apply_actions-Staffed (a ∷ as') c st =
      and_then-Staffed (set_user_enabled is_cidr c a.email false) (λ d. apply_actions is_cidr d as')
        (rw (set_user_enabled-Keeps is_cidr c a.email false).panel st)
        (λ d st'. apply_actions-Staffed as' d st')

  pub quota_apply-Safe :
      (allow_apply : Bool) (usage : Option UserState) (now : ℤ) (applied : Bool) (s : Server)
      → IsSafe is_cidr s
      → IsSafe is_cidr (quota_apply is_cidr allow_apply usage now applied s).0
  unfolding quota_apply save_quota apply_quota_plan
  quota_apply-Safe allow_apply none now applied s h = h
  quota_apply-Safe allow_apply (some usage) now applied s h =
      if-Safe is_cidr (not allow_apply) _ _ h (
        settle-Safe is_cidr (apply_quota_plan is_cidr s.cfg (plan_quota s.cfg usage now)) _ _
          (apply_actions-Staffed (plan_quota s.cfg usage now).actions s.cfg h.memory_staffed)
          (λ c st. with_cfg-Safe is_cidr s _ h.memory_staffed h)
          (λ c st.
            saved-Safe is_cidr (save_config is_cidr (with_cfg s _) c) (pos 500) _
              (save-Safe is_cidr (with_cfg s _) c st (with_cfg-Safe is_cidr s _ h.memory_staffed h))
              (λ t k. with_cfg-Safe is_cidr t c st k)))

apply_mode-Staffed : (c : Config) (m : Mode) → Staffed c → Staffed (apply_mode c m)
unfolding apply_mode
apply_mode-Staffed c m st = elim (Bool-cases (str_eq m.outbound_tag (proxy_tag c))) [
  | inl e ↦ rw (e, apply_mode) st
  | inr e ↦ rw (e, apply_mode) st
]

module _ (is_cidr : String → Bool) (to_lower : String → String) where
  pub switch_failover-Staffed :
      (mode tunnel : String) (ks : List Check)
      → Kept (switch_failover is_cidr to_lower mode tunnel ks)
  unfolding switch_failover
  switch_failover-Staffed mode tunnel ks c st =
      and_then-Staffed is_cidr (set_failover_mode is_cidr c to_lower mode tunnel) _
        (rw (set_failover_mode-Keeps is_cidr c to_lower mode tunnel).panel st)
        (λ d st'. apply_mode-Staffed d (chosen_mode d ks) st')

  pub perform-Safe :
      (o : Asked) (s : Server) → IsSafe is_cidr s → IsSafe is_cidr (perform is_cidr to_lower o s).0
  unfolding perform
  perform-Safe (Asked.refused code) s h = h
  perform-Safe (Asked.asks code k) s h =
      in_memory-Safe is_cidr _ code s (λ c st. call-Staffed is_cidr to_lower c k st) h

  pub with_reply-Safe :
      (applied : Bool) (answer : Server × Reply)
      → IsSafe is_cidr answer.0
      → IsSafe is_cidr (with_reply is_cidr to_lower applied answer).0
  unfolding with_reply
  with_reply-Safe applied (s, done) h = h
  with_reply-Safe applied (s, failed code) h = h

pub delete_direct_domain-Staffed :
    (domain : String) → Kept (λ c. (delete_direct_domain domain c, none))
unfolding delete_direct_domain
delete_direct_domain-Staffed domain c st = st
