-- ===== src/Tests/Samples.antt =====
-- A small configuration and its parts, on which the examples run.
use zeroone.Prelude.{String, Bool, true, false, none, List, [], ◌∷◌, str_eq}
use zeroone.Prelude.Int.{ℤ, pos}
use zeroone.Stack.{Config, User, Admin, SocksInbound, Outbound, TunnelConfig}
use zeroone.Usage.{Pair, UserState}
use zeroone.Failover.{Check, State, no_mode}

abbrev pub sample_cidr : String → Bool
sample_cidr s = str_eq s "10.99.0.1/24"

abbrev pub same_case : String → String
same_case s = s

abbrev pub user_of : String → Bool → ℤ → ℤ → User
user_of email on quota port = record {
  email = email;
  uuid = "0a";
  enabled = on;
  banned_until = pos 0;
  quota_bytes = quota;
  download_mbps = pos 10;
  upload_mbps = pos 10;
  bandwidth_port = port;
  daily_quota_bytes = pos 50;
  weekly_quota_bytes = pos 0;
  monthly_quota_bytes = pos 0;
  daily_reset_hhmm = "";
  max_sessions = pos 2;
  sub_token = "";
}

abbrev pub admin_of : String → Admin
admin_of name = record {
  username = name;
  password_hash = "h";
  created_at = pos 0;
  last_login = pos 0;
}

abbrev pub outbound_of : String → String → Outbound
outbound_of tag iface = record {
  tag = tag;
  kind = "vless";
  address = "192.0.2.1";
  port = pos 443;
  uuid = "";
  server_name = "";
  host = "";
  path = "";
  interface = iface;
  mux_concurrency = pos 0;
}

abbrev pub tunnel_of : String → String → TunnelConfig
tunnel_of name iface = record {
  name = name;
  kind = "wireguard";
  interface = iface;
  systemd_unit = "";
  priority = pos 1;
}

abbrev pub check_of : String → Bool → Check
check_of iface on = record { interface = iface; healthy = on }

abbrev pub sample_socks : SocksInbound
sample_socks = record {
  name = "guest";
  listen = "";
  port = pos 1081;
  username = "guest";
  password = "pw";
}

-- The proxy runs over `wg0`; the fallback tag is `fallback`.
abbrev pub config_of : List User → String → Config
config_of us fallback = record {
  server = record {
    public_ip = "192.0.2.2";
    client_endpoints = [];
    admin_listen = ":8080";
    xray_config_path = "/etc/xray.json";
    xray_binary = "";
    backup_dir = "";
    user_usage_path = "";
    socks_usage_path = "";
    ui_path = "";
    bandwidth_device = "";
    bandwidth_config_path = "";
    failover_state_path = "";
    failover_history_path = "";
    destinations_path = "";
    xray_install_dir = "";
  };
  xray = record {
    log_level = "warning";
    dns_servers = [];
    dns_hosts = [];
    api_port = pos 10085;
    inbounds = record {
      vless_ws_port = pos 10000;
      vless_xhttp_port = pos 10001;
      vless_xhttp_path = "";
      vless_xhttp_mode = "";
      vless_xhttp_tuning = record {
        x_padding_bytes = "";
        sc_max_buffered_posts = pos 0;
        sc_max_each_post_bytes = "";
        sc_stream_up_server_secs = "";
        keep_alive_period = pos 0;
        no_sse_header = none;
        no_grpc_header = none;
      };
      vless_xhttp_link_compat = false;
      local_socks_port = pos 1080;
      public_socks = sample_socks ∷ [];
    };
    users = us;
    outbounds = record { proxy = outbound_of "proxy" "wg0"; fallback = outbound_of "fallback" "" };
    routing = record {
      block_udp_443 = true;
      direct_domains = [];
      direct_ips = [];
      block_domains = [];
      manual_block_domains = [];
      block_ips = [];
      ai_update_domains = [];
      ai_domains = [];
      ai_outbound_tag = "";
    };
  };
  tunnels = tunnel_of "first" "wg0" ∷ tunnel_of "second" "wg1" ∷ [];
  failover = record {
    enabled = true;
    mode = "auto";
    preferred_tunnel = "";
    probe_ip = "";
    probe_port = pos 0;
    probes = [];
    interval_seconds = pos 30;
    confirmations = pos 3;
    cooldown_seconds = pos 300;
    fallback_outbound_tag = fallback;
  };
  panel = record {
    tokens = [];
    admins = admin_of "root" ∷ admin_of "ops" ∷ [];
    session_secret = "";
    notifications = record {
      webhook = record { url = ""; secret = ""; events = [] };
      telegram = record { bot_token = ""; chat_id = ""; events = [] };
    };
  };
  relay = record {
    enabled = false;
    listen = "";
    socks_port = pos 0;
    auth_key = "";
    script_url = "";
    deployment_ids = [];
    google_ip = "";
    front_domain = "";
    log_level = "";
    verify_ssl = none;
    binary = "";
    config_path = "";
    systemd_unit = "";
    outbound_tag = "";
    sites = [];
    inbound_tags = [];
    hosts_map = [];
    state_path = "";
    log_path = "";
    health_probe = "";
    notes = "";
    no_cert_check = false;
  };
  sni_spoof = record {
    enabled = true;
    fake_domain = "";
    method = "";
    fake_ttl = pos 0;
    listen = "";
    strategy = "";
    extra_args = [];
    outbound_tag = "";
    sites = record { domain = "example.com"; enabled = true; note = "" } ∷ [];
    inbound_tags = [];
    tun_name = "";
    tun_addr = "10.99.0.1/24";
    firewall_mark = pos 0;
    route_table = pos 0;
    mtu = pos 0;
    binary = "";
    tun2socks_binary = "";
    config_dir = "";
    state_path = "";
    log_path = "";
    health_probe = "";
    notes = "";
  };
  xray_update = record {
    release_mirror = "";
    assets_mirror = "";
    pinned_version = "";
    auto_check = none;
    include_geo = none;
  };
}

-- One user over the total quota, one over the daily one, one disabled.
abbrev pub sample : Config
sample =
    config_of
      (user_of "ann" true (pos 100) (pos 21000)
        ∷ user_of "bob" true (pos 0) (pos 0)
        ∷ user_of "eve" false (pos 1) (pos 0)
        ∷ [])
      "fallback"

abbrev pub pair : ℤ → ℤ → Pair
pair up down = record { uplink = up; downlink = down }

abbrev pub sample_usage : UserState
sample_usage = record {
  totals = ("ann", pair (pos 60) (pos 60)) ∷ ("bob", pair (pos 60) (pos 60)) ∷ [];
  last_raw = ("ann", pair (pos 5) (pos 9)) ∷ [];
  daily = ("bob", pair (pos 30) (pos 30)) ∷ [];
  weekly = [];
  monthly = [];
  periods = [];
  updated_at = pos 0;
}

abbrev pub idle : State
idle = record { candidate = no_mode; count = pos 0; last_change_unix = pos 0 }
