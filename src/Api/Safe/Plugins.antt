-- ===== src/Api/Safe/Plugins.antt =====
-- The handlers for the relay and the SNI spoof (internal/api/relay.go, snispoof.go).
use zeroone.Prelude.{String, Bool, true, false}
use zeroone.Stack.{Config}
use zeroone.Api.Store.{Server, with_cfg}
use zeroone.Api.Plugins.{
  Sites, refused, changed, change_sites, with_relay_sites, with_spoof_sites, or_undo, PluginChange,
  try_config, try_relay_sites, try_spoof_sites, change_plugin,
}
use zeroone.Api.Safe.Kept.{Staffed, IsSafe, with_cfg-Safe, save-Safe}

module _ (is_cidr : String → Bool) (equal_fold : String → String → Bool) where
  or_undo-Safe :
      (undo : Config → Config) (answer : Server × Bool)
      → ((c : Config) → Staffed c → Staffed (undo c))
      → IsSafe is_cidr answer.0
      → IsSafe is_cidr (or_undo undo answer).0
  unfolding or_undo
  or_undo-Safe undo (t, true) k h = h
  or_undo-Safe undo (t, false) k h =
      with_cfg-Safe is_cidr t (undo t.cfg) (k t.cfg h.memory_staffed) h

  try_config-Safe :
      (undo : Config → Config) (c : Config) (s : Server)
      → ((d : Config) → Staffed d → Staffed (undo d))
      → Staffed c
      → IsSafe is_cidr s
      → IsSafe is_cidr (try_config is_cidr equal_fold undo c s).0
  unfolding try_config
  try_config-Safe undo c s k st h =
      or_undo-Safe undo _ k (save-Safe is_cidr (with_cfg s c) c st (with_cfg-Safe is_cidr s c st h))

  relay_sites-Safe :
      (answer : Sites) (s : Server)
      → IsSafe is_cidr s
      → IsSafe is_cidr (try_relay_sites is_cidr equal_fold answer s).0
  unfolding try_relay_sites
  relay_sites-Safe (refused code) s h = h
  relay_sites-Safe (changed xs) s h =
      try_config-Safe (λ d. with_relay_sites d s.cfg.relay.sites) (with_relay_sites s.cfg xs) s
        (λ d st. st) h.memory_staffed h

  spoof_sites-Safe :
      (answer : Sites) (s : Server)
      → IsSafe is_cidr s
      → IsSafe is_cidr (try_spoof_sites is_cidr equal_fold answer s).0
  unfolding try_spoof_sites
  spoof_sites-Safe (refused code) s h = h
  spoof_sites-Safe (changed xs) s h =
      try_config-Safe (λ d. with_spoof_sites d s.cfg.sni_spoof.sites) (with_spoof_sites s.cfg xs) s
        (λ d st. st) h.memory_staffed h

  pub change_plugin-Safe :
      (q : PluginChange) (s : Server)
      → IsSafe is_cidr s
      → IsSafe is_cidr (change_plugin is_cidr equal_fold q s).0
  unfolding change_plugin
  change_plugin-Safe PluginChange.bad_body s h = h
  change_plugin-Safe (PluginChange.configure_relay req) s h =
      try_config-Safe _ _ s (λ d st. st) h.memory_staffed h
  change_plugin-Safe (PluginChange.configure_spoof req) s h =
      try_config-Safe _ _ s (λ d st. st) h.memory_staffed h
  change_plugin-Safe (PluginChange.relay_sites q) s h =
      relay_sites-Safe (change_sites equal_fold q s.cfg.relay.sites) s h
  change_plugin-Safe (PluginChange.spoof_sites q) s h =
      spoof_sites-Safe (change_sites equal_fold q s.cfg.sni_spoof.sites) s h
