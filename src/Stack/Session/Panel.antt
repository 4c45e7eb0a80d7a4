-- ===== src/Stack/Session/Panel.antt =====
-- What every operation that returns `Validate` promises, and which leave the panel's block.
use zeroone.Prelude.{◌≡◌, refl, String, Bool, none, arith}
use zeroone.Prelude.Int.{ℤ}
use zeroone.Prelude.Result.{ok, err}
use zeroone.Stack.Defs.{Config, User, SocksInbound, ClientEndpoint}
use zeroone.Stack.Rules.{Checked}
use zeroone.Stack.Validate.{validate}
use zeroone.Stack.Mutate.Outcome.{Outcome, Refused, refuse, error_of, change_user, checked}
use zeroone.Stack.Mutate.Users.{
  add_user, delete_user, set_user_enabled, update_user, ban_user, unban_user, set_user_quota,
  set_user_period_quotas, set_user_max_sessions,
}
use zeroone.Stack.Mutate.Ports.{with_new_port, with_port, set_user_bandwidth}
use zeroone.Stack.Mutate.Admins.{add_admin, set_admin_password, delete_admin}
use zeroone.Stack.Mutate.Listeners.{
  add_socks, update_socks, delete_socks, delete_client_endpoint, upsert_client_endpoint,
}
use zeroone.Stack.Mutate.Tunnels.{set_failover_mode}

error_of-none : (r : Checked (Unit {0})) → error_of r ≡ none → r ≡ ok tt
error_of-none (ok tt) h = refl
error_of-none (err e) h = cc

module _ (is_cidr : String → Bool) where
  -- A call without an error leaves a configuration that passes `Validate`.
  abbrev pub Passes : Outcome → Type 0
  Passes o = o.1 ≡ none → validate is_cidr o.0 ≡ ok tt

  pub checked-Passes : (c : Config) → Passes (checked is_cidr c)
  unfolding checked
  checked-Passes c h = error_of-none (validate is_cidr c) h

  -- The call leaves the panel's block, and passes.
  pub record Keeps (c : Config) (o : Outcome) : Type 0 where
    pub panel : o.0.panel ≡ c.panel
    pub passes : Passes o

  pub refuse-Passes : (c : Config) (e : Refused) → Passes (refuse c e)
  refuse-Passes c e h = cc

  module _ (c : Config) where
    pub change_user-Keeps :
        (email : String) (f : User → User) → Keeps c (change_user is_cidr c email f)
    unfolding change_user checked
    change_user-Keeps email f = ground arith

    pub add_user-Keeps : (fresh email uuid : String) → Keeps c (add_user is_cidr c fresh email uuid)
    unfolding add_user checked
    add_user-Keeps fresh email uuid = ground arith

    pub delete_user-Keeps : (email : String) → Keeps c (delete_user is_cidr c email)
    unfolding delete_user checked
    delete_user-Keeps email = ground arith

    pub update_user-Keeps :
        (old_email email uuid : String) (on : Bool)
        → Keeps c (update_user is_cidr c old_email email uuid on)
    unfolding update_user checked
    update_user-Keeps old_email email uuid on = ground arith

    pub set_user_enabled-Keeps :
        (email : String) (on : Bool) → Keeps c (set_user_enabled is_cidr c email on)
    unfolding set_user_enabled checked change_user
    set_user_enabled-Keeps email on = ground arith

    pub ban_user-Keeps : (email : String) (until : ℤ) → Keeps c (ban_user is_cidr c email until)
    unfolding ban_user checked change_user
    ban_user-Keeps email until = ground arith

    pub unban_user-Keeps : (email : String) → Keeps c (unban_user is_cidr c email)
    unfolding unban_user checked change_user
    unban_user-Keeps email = ground arith

    pub set_user_quota-Keeps :
        (email : String) (quota : ℤ) → Keeps c (set_user_quota is_cidr c email quota)
    unfolding set_user_quota checked change_user
    set_user_quota-Keeps email quota = ground arith

    pub set_user_max_sessions-Keeps :
        (email : String) (n : ℤ) → Keeps c (set_user_max_sessions is_cidr c email n)
    unfolding set_user_max_sessions checked change_user
    set_user_max_sessions-Keeps email n = ground arith

    pub set_user_period_quotas-Keeps :
        (email : String) (daily weekly monthly : ℤ) (hhmm : String)
        → Keeps c (set_user_period_quotas is_cidr c email daily weekly monthly hhmm)
    unfolding set_user_period_quotas checked change_user
    set_user_period_quotas-Keeps email daily weekly monthly hhmm = ground arith

    pub set_user_bandwidth-Keeps :
        (email : String) (down up : ℤ) → Keeps c (set_user_bandwidth is_cidr c email down up)
    unfolding set_user_bandwidth checked with_port with_new_port
    set_user_bandwidth-Keeps email down up = ground arith

    pub add_socks-Keeps :
        (fresh : String) (s : SocksInbound) → Keeps c (add_socks is_cidr c fresh s)
    unfolding add_socks checked
    add_socks-Keeps fresh s = ground arith

    pub update_socks-Keeps :
        (old_name : String) (s : SocksInbound) → Keeps c (update_socks is_cidr c old_name s)
    unfolding update_socks checked
    update_socks-Keeps old_name s = ground arith

    pub delete_socks-Keeps : (name : String) → Keeps c (delete_socks is_cidr c name)
    unfolding delete_socks checked
    delete_socks-Keeps name = ground arith

    pub delete_client_endpoint-Keeps :
        (name : String) → Keeps c (delete_client_endpoint is_cidr c name)
    unfolding delete_client_endpoint checked
    delete_client_endpoint-Keeps name = ground arith

    pub upsert_client_endpoint-Keeps :
        (to_lower : String → String) (ep : ClientEndpoint)
        → Keeps c (upsert_client_endpoint is_cidr to_lower c ep)
    unfolding upsert_client_endpoint checked
    upsert_client_endpoint-Keeps to_lower ep = ground arith

    pub set_failover_mode-Keeps :
        (to_lower : String → String) (mode tunnel : String)
        → Keeps c (set_failover_mode is_cidr c to_lower mode tunnel)
    unfolding set_failover_mode checked
    set_failover_mode-Keeps to_lower mode tunnel = ground arith

    pub add_admin-Passes : (name hash : String) → Passes (add_admin is_cidr c name hash)
    unfolding add_admin checked
    add_admin-Passes name hash = ground arith

    pub set_admin_password-Passes :
        (name hash : String) → Passes (set_admin_password is_cidr c name hash)
    unfolding set_admin_password checked
    set_admin_password-Passes name hash = ground arith

    pub delete_admin-Passes : (name : String) → Passes (delete_admin is_cidr c name)
    unfolding delete_admin checked
    delete_admin-Passes name = ground arith
