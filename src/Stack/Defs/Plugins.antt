-- ===== src/Stack/Defs/Plugins.antt =====
-- The plugin blocks of `Config` (internal/stack/config.go).
use zeroone.Prelude.{String, Bool, Option, List}
use zeroone.Prelude.Int.{ℤ}

-- `RelaySite`
pub record RelaySite : Type 0 where
  pub domain : String
  pub enabled : Bool
  pub note : String

-- `RelayConfig`
pub record RelayConfig : Type 0 where
  pub enabled : Bool
  pub listen : String
  pub socks_port : ℤ
  pub auth_key : String
  pub script_url : String
  pub deployment_ids : List String
  pub google_ip : String
  pub front_domain : String
  pub log_level : String
  pub verify_ssl : Option Bool
  pub binary : String
  pub config_path : String
  pub systemd_unit : String
  pub outbound_tag : String
  pub sites : List RelaySite
  pub inbound_tags : List String
  pub hosts_map : List (String × String)
  pub state_path : String
  pub log_path : String
  pub health_probe : String
  pub notes : String
  pub no_cert_check : Bool

-- `SNISpoofConfig`
pub record SniSpoofConfig : Type 0 where
  pub enabled : Bool
  pub fake_domain : String
  pub method : String
  pub fake_ttl : ℤ
  pub listen : String
  pub strategy : String
  pub extra_args : List String
  pub outbound_tag : String
  pub sites : List RelaySite
  pub inbound_tags : List String
  pub tun_name : String
  pub tun_addr : String
  pub firewall_mark : ℤ
  pub route_table : ℤ
  pub mtu : ℤ
  pub binary : String
  pub tun2socks_binary : String
  pub config_dir : String
  pub state_path : String
  pub log_path : String
  pub health_probe : String
  pub notes : String

-- `XrayUpdateConfig`
pub record XrayUpdateConfig : Type 0 where
  pub release_mirror : String
  pub assets_mirror : String
  pub pinned_version : String
  pub auto_check : Option Bool
  pub include_geo : Option Bool
