-- ===== src/Stack/Mutate/Tunnels.antt =====
-- The operations on the failover and update blocks and on direct domains (internal/stack/mutate.go).
-- `to_lower` is `strings.ToLower`.
use zeroone.Prelude.{String, Bool, not, ◌||◌, Option, none, some, str_eq, is_empty, if◌then◌else◌}
use zeroone.Stack.Defs.{Config, XrayUpdateConfig}
use zeroone.Stack.Effective.{or_text}
use zeroone.Stack.Text.{trim_space}
use zeroone.Stack.Validate.{has_tunnel}
use zeroone.Stack.Mutate.Outcome.{
  Outcome, required, not_found, unknown_mode, refuse, checked, delete_where,
}

abbrev with_mode : Config → String → String → Config
with_mode c mode tunnel = record c {
  failover = record (c.failover) { mode = mode; preferred_tunnel = tunnel };
}

module _ (is_cidr : String → Bool) (c : Config) where
  -- The `switch` over the cleaned mode.
  unfoldable pub switch_mode : String → String → Outcome
  switch_mode mode tunnel =
      if str_eq mode "auto"
      then checked is_cidr (with_mode c "auto" "")
      else if str_eq mode "manual" || str_eq mode "preferred"
      then if is_empty tunnel
        then refuse c required
        else if not (has_tunnel tunnel c.tunnels)
        then refuse c (not_found tunnel)
        else checked is_cidr (with_mode c mode tunnel)
      else refuse c unknown_mode

  unfoldable pub set_failover_mode : (String → String) → String → String → Outcome
  unfolding switch_mode
  set_failover_mode to_lower mode tunnel =
      switch_mode (or_text (trim_space (to_lower mode)) "auto") (trim_space tunnel)

abbrev or_old : Option Bool → Option Bool → Option Bool
or_old none old = old
or_old (some b) old = some b

unfoldable pub set_xray_update_config : XrayUpdateConfig → Config → Config
set_xray_update_config patch c = record c {
  xray_update = record {
    release_mirror = trim_space patch.release_mirror;
    assets_mirror = trim_space patch.assets_mirror;
    pinned_version = trim_space patch.pinned_version;
    auto_check = or_old patch.auto_check c.xray_update.auto_check;
    include_geo = or_old patch.include_geo c.xray_update.include_geo;
  };
}

unfoldable pub delete_direct_domain : String → Config → Config
delete_direct_domain domain c = record c {
  xray = record (c.xray) {
    routing = record (c.xray.routing) {
      direct_domains = delete_where (λ v. str_eq v domain) c.xray.routing.direct_domains;
    };
  };
}
