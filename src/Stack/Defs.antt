-- ===== src/Stack/Defs.antt =====
-- `Config` and its blocks (internal/stack/config.go). A Go field keeps its name, in snake case; a
-- `*bool` is an `Option Bool` and a map a list of pairs.
mod Plugins
mod Panel
mod Xray
pub use Plugins.*
pub use Panel.*
pub use Xray.*
use Plugins.{RelayConfig, SniSpoofConfig, XrayUpdateConfig}
use Panel.{ServerConfig, PanelConfig}
use Xray.{XrayConfig, TunnelConfig, FailoverConfig}
use zeroone.Prelude.{List}

-- `Config`
pub record Config : Type 0 where
  pub server : ServerConfig
  pub xray : XrayConfig
  pub tunnels : List TunnelConfig
  pub failover : FailoverConfig
  pub panel : PanelConfig
  pub relay : RelayConfig
  pub sni_spoof : SniSpoofConfig
  pub xray_update : XrayUpdateConfig
