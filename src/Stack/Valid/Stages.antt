-- ===== src/Stack/Valid/Stages.antt =====
-- `Validate` taken apart into the results of its blocks.
use zeroone.Prelude.{◌≡◌, String, Bool, []}
use zeroone.Prelude.Result.{ok, >>=-eq-ok}
use zeroone.Stack.Defs.{Config}
use zeroone.Stack.Validate.{
  Ports, check_required, listener_ports, check_endpoints, check_users, check_socks, check_admins,
  check_failover, check_relay, check_spoof, validate,
}

module _ (is_cidr : String → Bool) where
  -- A configuration with the tables that its checks fill.
  pub record Passed (c : Config) : Type 0 where
    pub listeners_table : Ports
    pub users_table : Ports
    pub socks_table : Ports
    pub required : check_required c ≡ ok tt
    pub listeners : listener_ports c.xray ≡ ok listeners_table
    pub endpoints : check_endpoints c.server.client_endpoints [] ≡ ok tt
    pub users : check_users c.xray.users [] listeners_table ≡ ok users_table
    pub socks : check_socks c.xray.inbounds.public_socks users_table ≡ ok socks_table
    pub admins : check_admins c.panel.admins [] ≡ ok tt
    pub failover : check_failover c.failover c.tunnels ≡ ok tt
    pub relay : check_relay c.relay c.xray.outbounds ≡ ok tt
    pub spoof : check_spoof is_cidr c.sni_spoof c.xray.outbounds c.relay socks_table ≡ ok tt

  pub validate-Passed : (c : Config) → validate is_cidr c ≡ ok tt → Passed c
  unfolding validate
  validate-Passed c h =
      let (_, required, h₁) = >>=-eq-ok _ _ h in
      let (ps, listeners, h₂) = >>=-eq-ok _ _ h₁ in
      let (_, endpoints, h₃) = >>=-eq-ok _ _ h₂ in
      let (qs, users, h₄) = >>=-eq-ok _ _ h₃ in
      let (rs, socks, h₅) = >>=-eq-ok _ _ h₄ in
      let (_, admins, h₆) = >>=-eq-ok _ _ h₅ in
      let (_, failover, h₇) = >>=-eq-ok _ _ h₆ in
      let (_, relay, h₈) = >>=-eq-ok _ _ h₇ in
      record {
        listeners_table = ps;
        users_table = qs;
        socks_table = rs;
        required = required;
        listeners = listeners;
        endpoints = endpoints;
        users = users;
        socks = socks;
        admins = admins;
        failover = failover;
        relay = relay;
        spoof = h₈;
      }
