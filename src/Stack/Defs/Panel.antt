-- ===== src/Stack/Defs/Panel.antt =====
-- The server and panel blocks of `Config` (internal/stack/config.go).
use zeroone.Prelude.{String, Bool, Option, List}
use zeroone.Prelude.Int.{ℤ}

-- `XmuxSettings`
pub record XmuxSettings : Type 0 where
  pub max_concurrency : String
  pub max_connections : String
  pub c_max_reuse_times : ℤ
  pub c_max_lifetime_ms : ℤ
  pub h_max_request_times : ℤ

-- `XHTTPClientExtra`
pub record XhttpClientExtra : Type 0 where
  pub x_padding_bytes : String
  pub no_sse_header : Option Bool
  pub no_grpc_header : Option Bool
  pub xmux : Option XmuxSettings

-- `ClientEndpoint`
pub record ClientEndpoint : Type 0 where
  pub name : String
  pub host : String
  pub port : ℤ
  pub network : String
  pub path : String
  pub mode : String
  pub tls : Bool
  pub enabled : Bool
  pub extra : XhttpClientExtra
  pub link_compat : Bool

-- `ServerConfig`
pub record ServerConfig : Type 0 where
  pub public_ip : String
  pub client_endpoints : List ClientEndpoint
  pub admin_listen : String
  pub xray_config_path : String
  pub xray_binary : String
  pub backup_dir : String
  pub user_usage_path : String
  pub socks_usage_path : String
  pub ui_path : String
  pub bandwidth_device : String
  pub bandwidth_config_path : String
  pub failover_state_path : String
  pub failover_history_path : String
  pub destinations_path : String
  pub xray_install_dir : String

-- `APIToken`
pub record ApiToken : Type 0 where
  pub id : String
  pub hash : String
  pub scope : String
  pub created_at : ℤ
  pub last_used : ℤ

-- `Admin`
pub record Admin : Type 0 where
  pub username : String
  pub password_hash : String
  pub created_at : ℤ
  pub last_login : ℤ

-- `WebhookSink`
pub record WebhookSink : Type 0 where
  pub url : String
  pub secret : String
  pub events : List String

-- `TelegramSink`
pub record TelegramSink : Type 0 where
  pub bot_token : String
  pub chat_id : String
  pub events : List String

-- `NotificationsConfig`
pub record NotificationsConfig : Type 0 where
  pub webhook : WebhookSink
  pub telegram : TelegramSink

-- `PanelConfig`
pub record PanelConfig : Type 0 where
  pub tokens : List ApiToken
  pub admins : List Admin
  pub session_secret : String
  pub notifications : NotificationsConfig
