-- ===== src/Api/Actions.antt =====
-- The requests that change the configuration, in any order (internal/api/server.go, admins.go,
-- tokens.go, relay.go, snispoof.go, notifications.go, xray_install.go, observability.go). `verify` stands for bcrypt's comparison of a password and a hash; `sign` and `encode`
-- are those of internal/auth.
use zeroone.Prelude.{
  ℕ, String, Bool, not, ◌||◌, Option, none, some, List, [], ◌∷◌, is_empty, if◌then◌else◌,
}
use zeroone.Prelude.Int.{ℤ, pos}
use zeroone.Stack.{Config, Admin, WebhookSink, TelegramSink}
use zeroone.Stack.Text.{trim_space}
use zeroone.Stack.Mutate.Outcome.{update_first, with_admins}
use zeroone.Stack.Mutate.Admins.{has_name}
use zeroone.Stack.Mutate.Domains.{add_direct_domain}
use zeroone.Stack.Mutate.Tunnels.{delete_direct_domain}
use zeroone.Stack.Session.Calls.{Call, call}
use zeroone.Auth.Sessions.{issue_session}
use zeroone.Usage.{UserState}
use zeroone.Failover.{Check}
use zeroone.Api.Store.{Server, Reply, done, failed, with_cfg, load, save_config}
use zeroone.Api.Users.{Change, handle, with_reply, set_bandwidth}
use zeroone.Api.Settings.{UpdatePatch, Snapshot, notifications_put, update_config_put}
use zeroone.Api.Settings
use zeroone.Api.Plugins.{PluginChange}
use zeroone.Api.Plugins
use zeroone.Api.Handlers.{
  with_panel, in_memory, from_disk, admin_create, token_create, token_delete, touch_token,
  quota_apply, switch_failover, saved,
}

unfoldable pub with_secret : Config → String → Config
with_secret c secret = with_panel c (record c.panel { session_secret = secret })

unfoldable pub find_admin : String → List Admin → Option Admin
find_admin name [] = none
find_admin name (a ∷ as') = if has_name name a then some a else find_admin name as'

-- The administrator who logs in is stamped.
unfoldable pub stamp_login : String → ℕ → Config → Config
stamp_login name now c =
    elim (update_first (has_name name) (λ a. record a { last_login = pos now }) c.panel.admins) [
      | none ↦ c
      | some as' ↦ with_admins c as'
    ]

-- A request, with what its handler draws from the outside: `fresh` at random, `now` from the clock,
-- `hash` where one is made, `allow_apply` from the command line, `applied` from running Xray.
pub data Action : Type 0 where
  change : (later : ℤ → ℤ) → Change → Action
  limit : (email : String) → (down up : ℤ) → (applied : Bool) → Action
  change_endpoint : Call → Action
  failover_mode : (mode tunnel : String) → List Check → (applied : Bool) → Action
  quota : (allow_apply : Bool) → Option UserState → (now : ℤ) → (applied : Bool) → Action
  create_admin :
      (name : String) → (password_length : ℕ) → (hash : Option String) → (now : ℤ) → Action
  create_token : (id scope : String) → (hash : Option String) → (now : ℤ) → Action
  delete_token : (id : String) → Action
  use_token : (hash : String) → (now : ℤ) → Action
  change_plugin : (equal_fold : String → String → Bool) → PluginChange → Action
  put_notifications : Option WebhookSink → Option TelegramSink → Action
  put_update_config : (allow_apply : Bool) → UpdatePatch → Action
  roll_back : (allow_apply : Bool) → (id : String) → Snapshot → Action
  add_domain delete_domain : (domain : String) → Action
  log_in : (name password : String) → (fresh : Option String) → (now : ℕ) → Action

module _ (is_cidr : String → Bool) (to_lower : String → String) (verify : String → String → Bool)
    (sign : String → String → String) (encode : String → String) where
  -- From the issue of the session on.
  unfoldable pub finish_login : String → ℕ → String → Server → Server × Reply
  finish_login name now secret s = elim (issue_session sign encode secret name now) [
    | none ↦ (s, failed (pos 500))
    | some issued ↦
        let t = with_cfg s (stamp_login name now s.cfg) in ((save_config is_cidr t t.cfg).0, done)
  ]

  -- `ensureSessionSecret`, and on.
  unfoldable pub ensure_secret : String → ℕ → Option String → Server → Server × Reply
  unfolding finish_login
  ensure_secret name now fresh s =
      if not (is_empty s.cfg.panel.session_secret)
      then finish_login name now s.cfg.panel.session_secret s
      else elim fresh [
        | none ↦ (s, failed (pos 500))
        | some secret ↦
            saved
              (save_config is_cidr (with_cfg s (with_secret s.cfg secret))
                (with_secret s.cfg secret))
              (pos 500) (λ t. finish_login name now secret t)
      ]

  unfoldable pub check_password : String → String → Option String → ℕ → Server → Server × Reply
  unfolding ensure_secret
  check_password name password fresh now s = elim (find_admin name s.cfg.panel.admins) [
    | none ↦ (s, failed (pos 401))
    | some a ↦
        if verify password a.password_hash
        then ensure_secret name now fresh s
        else (s, failed (pos 401))
  ]

  -- `login`
  unfoldable pub login : String → String → Option String → ℕ → Server → Server × Reply
  unfolding check_password
  login username password fresh now s =
      let name = trim_space username in
      if is_empty name || is_empty password then (s, failed (pos 400)) else elim (load is_cidr s) [
        | none ↦ (s, failed (pos 500))
        | some c ↦ check_password name password fresh now (with_cfg s c)
      ]

  unfoldable pub act : Action → Server → Server × Reply
  act (change later r) s = handle is_cidr to_lower later r s
  act (limit email down up applied) s = set_bandwidth is_cidr to_lower email down up applied s
  act (change_endpoint k) s = from_disk is_cidr (λ c. call is_cidr to_lower c k) s
  act (failover_mode mode tunnel ks applied) s =
      with_reply is_cidr to_lower applied
        (from_disk is_cidr (switch_failover is_cidr to_lower mode tunnel ks) s)
  act (quota allow_apply usage now applied) s = quota_apply is_cidr allow_apply usage now applied s
  act (create_admin name n hash now) s = admin_create is_cidr name n hash now s
  act (create_token id scope hash now) s = token_create is_cidr id scope hash now s
  act (delete_token id) s = token_delete is_cidr id s
  act (use_token hash now) s = (touch_token is_cidr hash now s, done)
  act (change_plugin equal_fold q) s = Plugins.change_plugin is_cidr equal_fold q s
  act (put_notifications w t) s = notifications_put is_cidr w t s
  act (put_update_config allow_apply req) s = update_config_put is_cidr allow_apply req s
  act (roll_back allow_apply id snapshot) s = Settings.roll_back allow_apply id snapshot s
  act (add_domain domain) s =
      in_memory is_cidr (λ c. add_direct_domain to_lower c domain) (pos 400) s
  act (delete_domain domain) s =
      in_memory is_cidr (λ c. (delete_direct_domain domain c, none)) (pos 400) s
  act (log_in name password fresh now) s = login name password fresh now s

  unfoldable pub acts : List Action → Server → Server
  acts [] s = s
  acts (a ∷ as') s = acts as' (act a s).0
