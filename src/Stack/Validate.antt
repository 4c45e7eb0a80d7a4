-- ===== src/Stack/Validate.antt =====
-- `Config.Validate` (internal/stack/config.go), a function for each of its loops and blocks, in the
-- source's order. `is_cidr` stands for the success of `net.ParseCIDR`.
use zeroone.Prelude.{
  String, Bool, true, false, not, ◌&&◌, ◌||◌, Option, none, some, List, [], ◌∷◌, str_eq, is_empty,
  if◌then◌else◌,
}
use zeroone.Prelude.Int.{ℤ, pos, ltb_ℤ, eqb_ℤ}
use zeroone.Prelude.Result.{ok, err, reject, ◌>>=◌, ◌>>◌}
use zeroone.Stack.Defs.{
  Config, ClientEndpoint, XrayConfig, SocksInbound, User, Admin, TunnelConfig, FailoverConfig,
  OutboundSet, RelaySite, RelayConfig, SniSpoofConfig,
}
use zeroone.Stack.Effective.{
  vless_xhttp_path, vless_xhttp_mode, relay_listen, relay_outbound_tag, spoof_listen,
  spoof_outbound_tag, spoof_method, spoof_tun_addr,
}
use zeroone.Stack.Text.{begins_with, parse_hhmm}
use zeroone.Stack.Rules.{
  Owner, vless_ws, vless_xhttp, local_socks, xray_api, sni_spoof_listen, bandwidth, socks, Invalid,
  admin_listen_required, xray_config_path_required, vless_ws_port_required, xhttp_path, xhttp_mode,
  proxy_tag_required, endpoint_name_required, duplicate_endpoint, endpoint_host, endpoint_port,
  endpoint_network, endpoint_path, endpoint_mode, user_needs_email_and_uuid, duplicate_user,
  negative_limits, negative_quotas, negative_sessions, daily_reset, bandwidth_port_range,
  admin_username_required, duplicate_admin, admin_hash_required, failover_mode_unknown,
  preferred_required, preferred_unknown, relay_listen_address, relay_empty_domain,
  relay_tag_conflict, relay_duplicate_site, spoof_listen_address, spoof_method_unknown,
  spoof_tun_cidr, spoof_negative, spoof_empty_domain, spoof_tag_conflict, spoof_duplicate_site,
  Checked, is_negative, contains, add_port, check_tuning, check_extra, is_xhttp_mode,
  split_host_port,
}

abbrev pub Ports : Type 0
Ports = List (ℤ × Owner)

-- The checks above the tables.
unfoldable pub check_required : Config → Checked (Unit {0})
check_required c = do
  reject (is_empty c.server.admin_listen) admin_listen_required
  reject (is_empty c.server.xray_config_path) xray_config_path_required
  reject (eqb_ℤ c.xray.inbounds.vless_ws_port (pos 0)) vless_ws_port_required
  reject (not (begins_with b'/' (vless_xhttp_path c.xray.inbounds))) xhttp_path
  reject (not (is_xhttp_mode (vless_xhttp_mode c.xray.inbounds))) xhttp_mode
  check_tuning c.xray.inbounds.vless_xhttp_tuning
  reject (is_empty c.xray.outbounds.proxy.tag) proxy_tag_required

-- The table of the four listeners.
unfoldable pub listener_ports : XrayConfig → Checked Ports
listener_ports x = do
  a ← add_port x.inbounds.vless_ws_port vless_ws []
  b ← add_port x.inbounds.vless_xhttp_port vless_xhttp a
  d ← add_port x.inbounds.local_socks_port local_socks b
  add_port x.api_port xray_api d

unfoldable pub check_endpoint : ClientEndpoint → Checked (Unit {0})
check_endpoint ep = do
  reject (is_empty ep.host) (endpoint_host ep.name)
  reject (ltb_ℤ ep.port (pos 1) || ltb_ℤ (pos 65535) ep.port) (endpoint_port ep.name)
  reject (not (str_eq ep.network "ws") && not (str_eq ep.network "xhttp"))
      (endpoint_network ep.name)
  reject (not (begins_with b'/' ep.path)) (endpoint_path ep.name)
  reject (not (is_empty ep.mode) && not (is_xhttp_mode ep.mode)) (endpoint_mode ep.name)
  check_extra ep.extra

unfoldable pub check_endpoints : List ClientEndpoint → List String → Checked (Unit {0})
check_endpoints [] seen = ok tt
check_endpoints (ep ∷ eps) seen = do
  reject (is_empty ep.name) endpoint_name_required
  reject (contains ep.name seen) (duplicate_endpoint ep.name)
  check_endpoint ep
  check_endpoints eps (ep.name ∷ seen)

abbrev pub is_none {ℓ} : {A : Type ℓ} → Option A → Bool
is_none none = true
is_none (some a) = false

-- The checks of one user that read no table.
unfoldable pub check_limits : User → Checked (Unit {0})
check_limits u = do
  reject (is_negative u.quota_bytes || is_negative u.download_mbps || is_negative u.upload_mbps)
      (negative_limits u.email)
  reject
      (is_negative u.daily_quota_bytes
        || is_negative u.weekly_quota_bytes
        || is_negative u.monthly_quota_bytes)
      (negative_quotas u.email)
  reject (is_negative u.max_sessions) (negative_sessions u.email)
  reject (not (is_empty u.daily_reset_hhmm) && is_none (parse_hhmm u.daily_reset_hhmm))
      (daily_reset u.email)
  reject
      (not (eqb_ℤ u.bandwidth_port (pos 0))
        && (ltb_ℤ u.bandwidth_port (pos 1) || ltb_ℤ (pos 65535) u.bandwidth_port))
      (bandwidth_port_range u.email)

unfoldable pub check_user : User → List String → Checked (Unit {0})
check_user u seen = do
  reject (is_empty u.email || is_empty u.uuid) user_needs_email_and_uuid
  reject (contains u.email seen) (duplicate_user u.email)
  check_limits u

unfoldable pub check_users : List User → List String → Ports → Checked Ports
check_users [] seen ps = ok ps
check_users (u ∷ us) seen ps = do
  check_user u seen
  qs ← add_port u.bandwidth_port (bandwidth u.email) ps
  check_users us (u.email ∷ seen) qs

unfoldable pub check_socks : List SocksInbound → Ports → Checked Ports
check_socks [] ps = ok ps
check_socks (s ∷ ss) ps = do qs ← add_port s.port (socks s.name) ps; check_socks ss qs

unfoldable pub check_admin : Admin → List String → Checked (Unit {0})
check_admin a seen = do
  reject (is_empty a.username) admin_username_required
  reject (contains a.username seen) (duplicate_admin a.username)
  reject (is_empty a.password_hash) (admin_hash_required a.username)

unfoldable pub check_admins : List Admin → List String → Checked (Unit {0})
check_admins [] seen = ok tt
check_admins (a ∷ as') seen = do check_admin a seen; check_admins as' (a.username ∷ seen)

unfoldable pub has_tunnel : String → List TunnelConfig → Bool
has_tunnel n [] = false
has_tunnel n (t ∷ ts) = str_eq t.name n || has_tunnel n ts

unfoldable pub check_failover : FailoverConfig → List TunnelConfig → Checked (Unit {0})
check_failover f ts = do
  reject
      (not (
        is_empty f.mode
        || str_eq f.mode "auto"
        || str_eq f.mode "manual"
        || str_eq f.mode "preferred"))
      failover_mode_unknown
  reject (not (is_empty f.preferred_tunnel) && not (has_tunnel f.preferred_tunnel ts))
      (preferred_unknown f.preferred_tunnel)
  reject ((str_eq f.mode "manual" || str_eq f.mode "preferred") && is_empty f.preferred_tunnel)
      preferred_required

-- The loop over the sites of a plugin.
unfoldable pub check_sites :
    Invalid → (String → Invalid) → List RelaySite → List String → Checked (Unit {0})
check_sites empty duplicate [] seen = ok tt
check_sites empty duplicate (s ∷ ss) seen = do
  reject (is_empty s.domain) empty
  reject (contains s.domain seen) (duplicate s.domain)
  check_sites empty duplicate ss (s.domain ∷ seen)

-- The `host` and `port` checks under `splitHostPort`.
unfoldable pub listen_port : Invalid → String → Checked ℤ
listen_port e listen = elim (split_host_port listen) [
  | none ↦ err e
  | some (host, port) ↦ if is_empty host || eqb_ℤ port (pos 0) then err e else ok port
]

unfoldable pub is_built_in : String → OutboundSet → Bool
is_built_in tag o =
    str_eq tag o.proxy.tag
    || str_eq tag o.fallback.tag
    || str_eq tag "direct"
    || str_eq tag "block"
    || str_eq tag "api"

unfoldable pub relay_rules : RelayConfig → OutboundSet → Checked (Unit {0})
relay_rules r o = do
  _ ← listen_port relay_listen_address (relay_listen r)
  reject (is_built_in (relay_outbound_tag r) o) (relay_tag_conflict (relay_outbound_tag r))
  check_sites relay_empty_domain relay_duplicate_site r.sites []

unfoldable pub check_relay : RelayConfig → OutboundSet → Checked (Unit {0})
unfolding relay_rules
check_relay r o = if r.enabled then relay_rules r o else ok tt

unfoldable pub is_spoof_method : String → Bool
is_spoof_method m = str_eq m "fake" || str_eq m "split" || str_eq m "disorder" || str_eq m "auto"

module _ (is_cidr : String → Bool) where
  -- The checks between the listen address and its port.
  unfoldable pub check_spoof_fields :
      SniSpoofConfig → OutboundSet → RelayConfig → Checked (Unit {0})
  check_spoof_fields s o r = do
    reject
        (is_built_in (spoof_outbound_tag s) o
          || str_eq (spoof_outbound_tag s) (relay_outbound_tag r))
        (spoof_tag_conflict (spoof_outbound_tag s))
    reject (not (is_spoof_method (spoof_method s))) spoof_method_unknown
    reject (not (is_cidr (spoof_tun_addr s))) spoof_tun_cidr
    reject
        (is_negative s.firewall_mark
          || is_negative s.route_table
          || is_negative s.mtu
          || is_negative s.fake_ttl)
        spoof_negative

  unfoldable pub spoof_rules :
      SniSpoofConfig → OutboundSet → RelayConfig → Ports → Checked (Unit {0})
  spoof_rules s o r ps = do
    port ← listen_port spoof_listen_address (spoof_listen s)
    check_spoof_fields s o r
    _ ← add_port port sni_spoof_listen ps
    check_sites spoof_empty_domain spoof_duplicate_site s.sites []

  unfoldable pub check_spoof :
      SniSpoofConfig → OutboundSet → RelayConfig → Ports → Checked (Unit {0})
  check_spoof s o r ps = if s.enabled then spoof_rules s o r ps else ok tt

  -- `Config.Validate`
  unfoldable pub validate : Config → Checked (Unit {0})
  validate c = do
    check_required c
    ps ← listener_ports c.xray
    check_endpoints c.server.client_endpoints []
    qs ← check_users c.xray.users [] ps
    rs ← check_socks c.xray.inbounds.public_socks qs
    check_admins c.panel.admins []
    check_failover c.failover c.tunnels
    check_relay c.relay c.xray.outbounds
    check_spoof c.sni_spoof c.xray.outbounds c.relay rs
