-- ===== src/Stack/Defs/Xray.antt =====
-- The Xray, tunnel and failover blocks of `Config` (internal/stack/config.go).
use zeroone.Prelude.{String, Bool, Option, List}
use zeroone.Prelude.Int.{ℤ}

-- `XHTTPInboundTuning`
pub record XhttpInboundTuning : Type 0 where
  pub x_padding_bytes : String
  pub sc_max_buffered_posts : ℤ
  pub sc_max_each_post_bytes : String
  pub sc_stream_up_server_secs : String
  pub keep_alive_period : ℤ
  pub no_sse_header : Option Bool
  pub no_grpc_header : Option Bool

-- `SOCKSInbound`
pub record SocksInbound : Type 0 where
  pub name : String
  pub listen : String
  pub port : ℤ
  pub username : String
  pub password : String

-- `InboundConfig`
pub record InboundConfig : Type 0 where
  pub vless_ws_port : ℤ
  pub vless_xhttp_port : ℤ
  pub vless_xhttp_path : String
  pub vless_xhttp_mode : String
  pub vless_xhttp_tuning : XhttpInboundTuning
  pub vless_xhttp_link_compat : Bool
  pub local_socks_port : ℤ
  pub public_socks : List SocksInbound

-- `User`
pub record User : Type 0 where
  pub email : String
  pub uuid : String
  pub enabled : Bool
  pub banned_until : ℤ
  pub quota_bytes : ℤ
  pub download_mbps : ℤ
  pub upload_mbps : ℤ
  pub bandwidth_port : ℤ
  pub daily_quota_bytes : ℤ
  pub weekly_quota_bytes : ℤ
  pub monthly_quota_bytes : ℤ
  pub daily_reset_hhmm : String
  pub max_sessions : ℤ
  pub sub_token : String

-- `Outbound`; the field `Type` is `kind`
pub record Outbound : Type 0 where
  pub tag : String
  pub kind : String
  pub address : String
  pub port : ℤ
  pub uuid : String
  pub server_name : String
  pub host : String
  pub path : String
  pub interface : String
  pub mux_concurrency : ℤ

-- `OutboundSet`
pub record OutboundSet : Type 0 where
  pub proxy : Outbound
  pub fallback : Outbound

-- `RoutingConfig`
pub record RoutingConfig : Type 0 where
  pub block_udp_443 : Bool
  pub direct_domains : List String
  pub direct_ips : List String
  pub block_domains : List String
  pub manual_block_domains : List String
  pub block_ips : List String
  pub ai_update_domains : List String
  pub ai_domains : List String
  pub ai_outbound_tag : String

-- `XrayConfig`
pub record XrayConfig : Type 0 where
  pub log_level : String
  pub dns_servers : List String
  pub dns_hosts : List (String × List String)
  pub api_port : ℤ
  pub inbounds : InboundConfig
  pub users : List User
  pub outbounds : OutboundSet
  pub routing : RoutingConfig

-- `TunnelConfig`; the field `Type` is `kind`
pub record TunnelConfig : Type 0 where
  pub name : String
  pub kind : String
  pub interface : String
  pub systemd_unit : String
  pub priority : ℤ

-- `ProbeTarget`
pub record ProbeTarget : Type 0 where
  pub address : String
  pub port : ℤ

-- `FailoverConfig`
pub record FailoverConfig : Type 0 where
  pub enabled : Bool
  pub mode : String
  pub preferred_tunnel : String
  pub probe_ip : String
  pub probe_port : ℤ
  pub probes : List ProbeTarget
  pub interval_seconds : ℤ
  pub confirmations : ℤ
  pub cooldown_seconds : ℤ
  pub fallback_outbound_tag : String
