-- ===== src/Api/Safe.antt =====
-- What no request can take from the panel (internal/api): a configuration file that can be loaded,
-- with an administrator in it.
mod Kept
mod Requests
mod Logins
mod Plugins
pub use Kept.{Staffed, IsSafe, load-Safe}
use zeroone.Prelude.{
  ℕ, ◌≡◌, refl, inl, inr, String, Bool, true, false, not, ◌||◌, str_eq, Option, none, some, List,
  [], ◌∷◌, Bool-cases, Option-cases, if◌then◌else◌, is_empty, ltb,
}
use zeroone.Prelude.Int.{ℤ, pos}
use zeroone.Stack.{Config, Admin}
use zeroone.Stack.Text.{trim_space}
use zeroone.Stack.Mutate.Outcome.{Outcome, any_of, update_first}
use zeroone.Stack.Mutate.Admins.{has_name, add_admin}
use zeroone.Stack.Mutate.Users.{set_user_enabled}
use zeroone.Stack.Mutate.Tunnels.{set_failover_mode}
use zeroone.Stack.Session.Names.{IsStaffed, update_first-usernames, same_names_someone}
use zeroone.Stack.Session.Panel.{set_user_enabled-Keeps, set_failover_mode-Keeps}
use zeroone.Stack.Session.Admins.{add_admin-Staffed, add_direct_domain-Staffed, call-Staffed}
use zeroone.Enforce.{and_then, QuotaAction, apply_actions, plan_quota, apply_quota_plan}
use zeroone.Auth.Sessions.{issue_session}
use zeroone.Failover.{Check, Mode, proxy_tag, apply_mode}
use zeroone.Usage.{UserState}
use zeroone.Api.Store.{Server, Reply, done, failed, is_valid, with_cfg, load, save_config}
use zeroone.Api.Users.{Asked, asked, perform, handle, with_reply, set_bandwidth}
use zeroone.Api.Handlers.{
  settle, saved, with_tokens, has_id, stamp_created, commit, in_memory, from_disk, create_admin,
  chosen_mode, admin_create, token_create, token_delete, touch_token, save_quota, quota_apply,
  switch_failover,
}
use zeroone.Api.Actions.{
  Action, with_secret, find_admin, stamp_login, finish_login, ensure_secret, check_password, login,
  act, acts,
}
use Kept.{with_cfg-Safe, if-Safe, commit-Safe, in_memory-Safe, from_disk-Safe}
use zeroone.Api.Settings.{
  Snapshot, no_store, absent, unreadable, held, restore, roll_back, notifications_put,
  update_config_put, put_notifications, put_update_config,
}
use zeroone.Stack.Mutate.Tunnels.{set_xray_update_config}
use Requests.{
  delete_direct_domain-Staffed, admin_create-Safe, token_create-Safe, token_delete-Safe,
  touch_token-Safe, quota_apply-Safe, switch_failover-Staffed, perform-Safe, with_reply-Safe,
}
use Logins.{login-Safe}
use Plugins.{change_plugin-Safe}

module _ (is_cidr : String → Bool) where
  -- The snapshot's file is a configuration that `Validate` accepts, with administrators.
  abbrev pub IsWhole : Snapshot → Type 0
  IsWhole (held (some c) copied) = (is_valid is_cidr c ≡ true) × Staffed c
  IsWhole (held none copied) = ⊥
  IsWhole _ = Unit {0}

  -- A request that returns to no other snapshot.
  abbrev pub IsSound : Action → Type 0
  IsSound (Action.roll_back allow_apply id snapshot) = IsWhole snapshot
  IsSound _ = Unit {0}

  abbrev pub AllSound : List Action → Type 0
  AllSound [] = Unit {0}
  AllSound (a ∷ as') = IsSound a × AllSound as'

  restore-Safe :
      (id : String) (snapshot : Snapshot) (s : Server)
      → IsWhole snapshot
      → IsSafe is_cidr s
      → IsSafe is_cidr (restore id snapshot s).0
  unfolding restore
  restore-Safe id no_store s w h = h
  restore-Safe id absent s w h = h
  restore-Safe id unreadable s w h = h
  restore-Safe id (held none copied) s w h = absurd w
  restore-Safe id (held (some c) copied) s (valid, staffed) h =
      if-Safe is_cidr (is_empty id) _ _ h (record {
        file = c;
        written = refl;
        valid = valid;
        file_staffed = staffed;
        memory_staffed = h.memory_staffed;
      })

module _ (is_cidr : String → Bool) (to_lower : String → String) (verify : String → String → Bool)
    (sign : String → String → String) (encode : String → String) where
  act-Safe :
      (a : Action) (s : Server)
      → IsSound is_cidr a
      → IsSafe is_cidr s
      → IsSafe is_cidr (act is_cidr to_lower verify sign encode a s).0
  unfolding act handle set_bandwidth notifications_put update_config_put put_notifications
      put_update_config set_xray_update_config roll_back
  act-Safe (Action.change later r) s u h = perform-Safe is_cidr to_lower (asked later r) s h
  act-Safe (Action.limit email down up applied) s u h =
      with_reply-Safe is_cidr to_lower applied _
        (in_memory-Safe is_cidr _ (pos 400) s (λ c st. call-Staffed is_cidr to_lower c _ st) h)
  act-Safe (Action.change_endpoint k) s u h =
      from_disk-Safe is_cidr _ s (λ c st. call-Staffed is_cidr to_lower c k st) h
  act-Safe (Action.failover_mode mode tunnel ks applied) s u h =
      with_reply-Safe is_cidr to_lower applied _
        (from_disk-Safe is_cidr _ s (switch_failover-Staffed is_cidr to_lower mode tunnel ks) h)
  act-Safe (Action.quota allow_apply usage now applied) s u h =
      quota_apply-Safe is_cidr allow_apply usage now applied s h
  act-Safe (Action.create_admin name n hash now) s u h =
      admin_create-Safe is_cidr name n hash now s h
  act-Safe (Action.create_token id scope hash now) s u h =
      token_create-Safe is_cidr id scope hash now s h
  act-Safe (Action.delete_token id) s u h = token_delete-Safe is_cidr id s h
  act-Safe (Action.use_token hash now) s u h = touch_token-Safe is_cidr hash now s h
  act-Safe (Action.change_plugin equal_fold q) s u h = change_plugin-Safe is_cidr equal_fold q s h
  act-Safe (Action.put_notifications w t) s u h =
      commit-Safe is_cidr (with_cfg s _) (with_cfg-Safe is_cidr s _ h.memory_staffed h)
  act-Safe (Action.put_update_config allow_apply req) s u h =
      if-Safe is_cidr (not allow_apply) _ _ h (from_disk-Safe is_cidr _ s (λ c st. st) h)
  act-Safe (Action.roll_back allow_apply id snapshot) s u h =
      if-Safe is_cidr (not allow_apply) _ _ h (restore-Safe is_cidr id snapshot s u h)
  act-Safe (Action.add_domain domain) s u h =
      in_memory-Safe is_cidr _ (pos 400) s (λ c st. add_direct_domain-Staffed to_lower domain c st)
        h
  act-Safe (Action.delete_domain domain) s u h =
      in_memory-Safe is_cidr _ (pos 400) s (λ c st. delete_direct_domain-Staffed domain c st) h
  act-Safe (Action.log_in name password fresh now) s u h =
      login-Safe is_cidr to_lower verify sign encode name password fresh now s h

  -- Nobody is locked out: where the configuration file has a configuration that `Validate` accepts with
  -- an administrator and no two of one name, the configuration in memory has such administrators too,
  -- and every snapshot that one of the requests returns to holds a configuration that `Validate`
  -- accepts with such administrators, the same holds of file and memory after any of the modelled
  -- requests in any order, whatever they answer.
  pub acts-Safe :
      (as' : List Action) (s : Server)
      → AllSound is_cidr as'
      → IsSafe is_cidr s
      → IsSafe is_cidr (acts is_cidr to_lower verify sign encode as' s)
  unfolding acts
  acts-Safe [] s u h = h
  acts-Safe (a ∷ as') s u h =
      acts-Safe as' (act is_cidr to_lower verify sign encode a s).0 u.1 (act-Safe a s u.0 h)
