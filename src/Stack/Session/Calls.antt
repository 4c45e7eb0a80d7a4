-- ===== src/Stack/Session/Calls.antt =====
-- The calls of the operations of internal/stack/mutate.go, in any order.
use zeroone.Prelude.{String, Bool, true, false, none, List, [], ◌∷◌}
use zeroone.Prelude.Int.{ℤ}
use zeroone.Stack.Defs.{Config, SocksInbound, ClientEndpoint, XrayUpdateConfig}
use zeroone.Stack.Mutate.Outcome.{Outcome}
use zeroone.Stack.Mutate.Users
use zeroone.Stack.Mutate.Ports
use zeroone.Stack.Mutate.Admins
use zeroone.Stack.Mutate.Listeners
use zeroone.Stack.Mutate.Tunnels
use zeroone.Stack.Mutate.Domains

-- A call with its arguments; `fresh` is what the call draws at random.
pub data Call : Type 0 where
  add_user : (fresh email uuid : String) → Call
  delete_user unban_user : (email : String) → Call
  set_user_enabled : (email : String) → Bool → Call
  update_user : (old_email email uuid : String) → Bool → Call
  ban_user set_user_quota set_user_max_sessions : (email : String) → ℤ → Call
  set_user_period_quotas : (email : String) → (daily weekly monthly : ℤ) → (hhmm : String) → Call
  set_user_bandwidth : (email : String) → (down up : ℤ) → Call
  add_admin set_admin_password : (name hash : String) → Call
  delete_admin : (name : String) → Call
  add_socks : (fresh : String) → SocksInbound → Call
  update_socks : (old_name : String) → SocksInbound → Call
  delete_socks delete_client_endpoint : (name : String) → Call
  upsert_client_endpoint : ClientEndpoint → Call
  set_failover_mode : (mode tunnel : String) → Call
  add_direct_domain delete_direct_domain : (domain : String) → Call
  set_xray_update_config : XrayUpdateConfig → Call

-- The operation ends in `Validate`.
abbrev pub validates : Call → Bool
validates (add_direct_domain domain) = false
validates (delete_direct_domain domain) = false
validates (set_xray_update_config patch) = false
validates _ = true

module _ (is_cidr : String → Bool) (to_lower : String → String) where
  unfoldable pub call : Config → Call → Outcome
  call c (add_user fresh email uuid) = Users.add_user is_cidr c fresh email uuid
  call c (delete_user email) = Users.delete_user is_cidr c email
  call c (unban_user email) = Users.unban_user is_cidr c email
  call c (set_user_enabled email on) = Users.set_user_enabled is_cidr c email on
  call c (update_user old_email email uuid on) = Users.update_user is_cidr c old_email email uuid on
  call c (ban_user email until) = Users.ban_user is_cidr c email until
  call c (set_user_quota email quota) = Users.set_user_quota is_cidr c email quota
  call c (set_user_max_sessions email n) = Users.set_user_max_sessions is_cidr c email n
  call c (set_user_period_quotas email daily weekly monthly hhmm) =
      Users.set_user_period_quotas is_cidr c email daily weekly monthly hhmm
  call c (set_user_bandwidth email down up) = Ports.set_user_bandwidth is_cidr c email down up
  call c (add_admin name hash) = Admins.add_admin is_cidr c name hash
  call c (set_admin_password name hash) = Admins.set_admin_password is_cidr c name hash
  call c (delete_admin name) = Admins.delete_admin is_cidr c name
  call c (add_socks fresh s) = Listeners.add_socks is_cidr c fresh s
  call c (update_socks old_name s) = Listeners.update_socks is_cidr c old_name s
  call c (delete_socks name) = Listeners.delete_socks is_cidr c name
  call c (delete_client_endpoint name) = Listeners.delete_client_endpoint is_cidr c name
  call c (upsert_client_endpoint ep) = Listeners.upsert_client_endpoint is_cidr to_lower c ep
  call c (set_failover_mode mode tunnel) = Tunnels.set_failover_mode is_cidr c to_lower mode tunnel
  call c (add_direct_domain domain) = Domains.add_direct_domain to_lower c domain
  call c (delete_direct_domain domain) = (Tunnels.delete_direct_domain domain c, none)
  call c (set_xray_update_config patch) = (Tunnels.set_xray_update_config patch c, none)

  unfoldable pub calls : Config → List Call → Config
  calls c [] = c
  calls c (k ∷ ks) = calls (call c k).0 ks
