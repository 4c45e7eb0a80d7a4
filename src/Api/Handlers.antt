-- ===== src/Api/Handlers.antt =====
-- The handlers that change the configuration (internal/api/server.go, admins.go, tokens.go). The
-- clock, random values, health checks and the outcome of an apply come with the request.
use zeroone.Prelude.{
  ℕ, String, Bool, true, false, not, ◌||◌, ◌++◌, Option, none, some, List, [], ◌∷◌, ltb, str_eq,
  is_empty, if◌then◌else◌,
}
use zeroone.Prelude.Int.{ℤ, pos}
use zeroone.Stack.{Config, ApiToken, PanelConfig, TunnelConfig}
use zeroone.Stack.Effective.{failover_mode}
use zeroone.Stack.Mutate.Outcome.{
  Outcome, any_of, update_first, delete_where, with_users, with_admins,
}
use zeroone.Stack.Mutate.Admins.{has_name, add_admin}
use zeroone.Stack.Mutate.Tunnels.{set_failover_mode}
use zeroone.Enforce.{and_then, apply_quota_plan, plan_quota}
use zeroone.Usage.{UserState}
use zeroone.Failover.{Check, Mode, desired_mode, apply_mode, has_healthy}
use zeroone.Api.Store.{Server, Reply, done, failed, with_cfg, load, save_config}

abbrev pub with_panel : Config → PanelConfig → Config
with_panel c p = record c { panel = p }

abbrev pub with_tokens : Config → List ApiToken → Config
with_tokens c ts = with_panel c (record c.panel { tokens = ts })

abbrev pub has_id : String → ApiToken → Bool
has_id id t = str_eq t.id id

abbrev has_hash : String → ApiToken → Bool
has_hash hash t = str_eq t.hash hash

abbrev pub or_same {ℓ} : {A : Type ℓ} → A → Option A → A
or_same a none = a
or_same a (some b) = b

-- `if err != nil { … }`
abbrev pub settle {ℓ} : {A : Type ℓ} → Outcome → (Config → A) → (Config → A) → A
settle (c, some e) bad good = bad c
settle (c, none) bad good = good c

abbrev pub saved : Server × Bool → ℤ → (Server → Server × Reply) → Server × Reply
saved (t, false) code good = (t, failed code)
saved (t, true) code good = good t

-- The first administrator of the name is stamped.
unfoldable pub stamp_created : String → ℤ → Config → Config
stamp_created name now c = with_admins c (
    or_same c.panel.admins
      (update_first (has_name name) (λ a. record a { created_at = now }) c.panel.admins))

module _ (is_cidr : String → Bool) where
  -- `if !s.save(w) { return }`
  unfoldable pub commit : Server → Server × Reply
  commit s = saved (save_config is_cidr s s.cfg) (pos 400) (λ t. (t, done))

  -- A handler that calls an operation on `s.cfg`.
  unfoldable pub in_memory : (Config → Outcome) → ℤ → Server → Server × Reply
  in_memory f code s =
      settle (f s.cfg) (λ c. (with_cfg s c, failed code)) (λ c. commit (with_cfg s c))

  unfoldable pub store : Server → Config → Server × Reply
  store s c = saved (save_config is_cidr s c) (pos 400) (λ t. (with_cfg t c, done))

  -- A handler that calls an operation on the configuration of the file.
  unfoldable pub from_disk : (Config → Outcome) → Server → Server × Reply
  unfolding store
  from_disk f s = elim (load is_cidr s) [
    | none ↦ (s, failed (pos 500))
    | some c ↦ settle (f c) (λ d. (s, failed (pos 400))) (λ d. store s d)
  ]

  unfoldable pub create_admin : String → String → ℤ → Config → Outcome
  create_admin name hash now c =
      and_then (add_admin is_cidr c name hash) (λ d. (stamp_created name now d, none))

  -- `adminCreate`; `password_length` in bytes, `hash` none where hashing fails.
  unfoldable pub admin_create : String → ℕ → Option String → ℤ → Server → Server × Reply
  unfolding create_admin
  admin_create name password_length hash now s =
      if is_empty name || ltb password_length 8 then (s, failed (pos 400)) else elim hash [
        | none ↦ (s, failed (pos 500))
        | some h ↦ in_memory (create_admin name h now) (pos 400) s
      ]

  -- `tokenCreate`; `hash` none where no token can be generated.
  unfoldable pub token_create : String → String → Option String → ℤ → Server → Server × Reply
  token_create id scope hash now s =
      if is_empty id
      then (s, failed (pos 400))
      else if any_of (has_id id) s.cfg.panel.tokens
      then (s, failed (pos 409))
      else elim hash [
        | none ↦ (s, failed (pos 500))
        | some h ↦
            let token : ApiToken = record {
              id = id;
              hash = h;
              scope = scope;
              created_at = now;
              last_used = pos 0;
            } in
            commit (with_cfg s (with_tokens s.cfg (s.cfg.panel.tokens ++ (token ∷ []))))
      ]

  -- `tokenDelete`
  unfoldable pub token_delete : String → Server → Server × Reply
  token_delete id s =
      if is_empty id
      then (s, failed (pos 400))
      else if not (any_of (has_id id) s.cfg.panel.tokens)
      then (s, failed (pos 404))
      else commit (with_cfg s (with_tokens s.cfg (delete_where (has_id id) s.cfg.panel.tokens)))

  -- `touchToken`; `s.cfg` stays.
  unfoldable pub touch_token : String → ℤ → Server → Server
  touch_token hash now s = elim (load is_cidr s) [
    | none ↦ s
    | some c ↦
        elim (update_first (has_hash hash) (λ t. record t { last_used = now }) c.panel.tokens) [
          | none ↦ s
          | some ts ↦ (save_config is_cidr s (with_tokens c ts)).0
        ]
  ]

  -- From the save of `quotaApply` on.
  unfoldable pub save_quota : Server → Config → Bool → Server × Reply
  save_quota s next applied =
      saved (save_config is_cidr s next) (pos 500)
        (λ t. (with_cfg t next, if applied then done else failed (pos 500)))

  -- `quotaApply`. `next` is a shallow copy: it has the users of `s.cfg` in common with it, so that
  -- they are changed also where it fails.
  unfoldable pub quota_apply : Bool → Option UserState → ℤ → Bool → Server → Server × Reply
  unfolding save_quota
  quota_apply allow_apply none now applied s =
      (s, failed (if allow_apply then pos 500 else pos 403))
  quota_apply allow_apply (some usage) now applied s =
      if not allow_apply
      then (s, failed (pos 403))
      else settle (apply_quota_plan is_cidr s.cfg (plan_quota s.cfg usage now))
          (λ next. (with_cfg s (with_users s.cfg next.xray.users), failed (pos 500)))
          (λ next. save_quota (with_cfg s (with_users s.cfg next.xray.users)) next applied)

-- The first tunnel of the name.
unfoldable pub named_tunnel : String → List TunnelConfig → Option TunnelConfig
named_tunnel name [] = none
named_tunnel name (t ∷ ts) = if str_eq t.name name then some t else named_tunnel name ts

-- The mode that `failoverMode` binds to: the pinned tunnel where it is up.
unfoldable pub chosen_mode : Config → List Check → Mode
unfolding named_tunnel
chosen_mode c ks =
    if str_eq (failover_mode c.failover) "auto" || is_empty c.failover.preferred_tunnel
    then desired_mode c ks
    else elim (named_tunnel c.failover.preferred_tunnel c.tunnels) [
      | none ↦ desired_mode c ks
      | some t ↦
          if has_healthy ks t.interface
          then record { outbound_tag = c.xray.outbounds.proxy.tag; interface = t.interface }
          else desired_mode c ks
    ]

module _ (is_cidr : String → Bool) (to_lower : String → String) where
  unfoldable pub switch_failover : String → String → List Check → Config → Outcome
  switch_failover mode tunnel ks c =
      and_then (set_failover_mode is_cidr c to_lower mode tunnel)
        (λ d. (apply_mode d (chosen_mode d ks), none))
