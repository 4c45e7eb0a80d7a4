-- ===== src/Api/Tidy.antt =====
-- The sites of both plugins after any requests (internal/api/relay.go, snispoof.go).
use zeroone.Prelude.{◌≡◌, String, Bool, true, false, some, List, [], ◌∷◌, if◌then◌else◌}
use zeroone.Stack.{Config}
use zeroone.Api.Store.{Server, is_valid, with_cfg, save_config}
use zeroone.Api.Plugins.{
  Sites, refused, changed, change_sites, with_relay_sites, with_spoof_sites, or_undo, PluginChange,
  try_config, try_relay_sites, try_spoof_sites, change_plugin, change_plugins, patch_relay,
  patch_spoof,
}
use zeroone.Api.SiteNames.{sites_after, IsDistinct, change_sites-Distinct}

module _ (is_cidr : String → Bool) (equal_fold : String → String → Bool) where
  -- The sites in memory.
  abbrev pub AreTidy : Config → Type 0
  AreTidy c = IsDistinct equal_fold c.relay.sites × IsDistinct equal_fold c.sni_spoof.sites

  or_undo-Tidy :
      (b : Bool) (undo : Config → Config) (c : Config) (s : Server)
      → AreTidy c
      → AreTidy (undo c)
      → AreTidy
          (or_undo undo
            (if b then (record { cfg = c; disk = some c }, true) else (with_cfg s c, false))).0.cfg
  unfolding or_undo
  or_undo-Tidy true undo c s h k = h
  or_undo-Tidy false undo c s h k = k

  try_config-Tidy :
      (undo : Config → Config) (c : Config) (s : Server)
      → AreTidy c
      → AreTidy (undo c)
      → AreTidy (try_config is_cidr equal_fold undo c s).0.cfg
  unfolding try_config save_config
  try_config-Tidy undo c s h k = or_undo-Tidy (is_valid is_cidr c) undo c s h k

  relay_sites-Tidy :
      (answer : Sites) (s : Server)
      → IsDistinct equal_fold (sites_after s.cfg.relay.sites answer)
      → AreTidy s.cfg
      → AreTidy (try_relay_sites is_cidr equal_fold answer s).0.cfg
  unfolding try_relay_sites sites_after
  relay_sites-Tidy (refused code) s h d = d
  relay_sites-Tidy (changed xs) s h d =
      try_config-Tidy (λ e. with_relay_sites e s.cfg.relay.sites) (with_relay_sites s.cfg xs) s
        (h, d.1) d

  spoof_sites-Tidy :
      (answer : Sites) (s : Server)
      → IsDistinct equal_fold (sites_after s.cfg.sni_spoof.sites answer)
      → AreTidy s.cfg
      → AreTidy (try_spoof_sites is_cidr equal_fold answer s).0.cfg
  unfolding try_spoof_sites sites_after
  spoof_sites-Tidy (refused code) s h d = d
  spoof_sites-Tidy (changed xs) s h d =
      try_config-Tidy (λ e. with_spoof_sites e s.cfg.sni_spoof.sites) (with_spoof_sites s.cfg xs) s
        (d.0, h) d

  module _ (fold_sym : (a b : String) → equal_fold a b ≡ equal_fold b a)
      (fold_trans : (a b c : String)
        → equal_fold a b ≡ true
        → equal_fold a c ≡ equal_fold b c) where
    change_plugin-Tidy :
        (q : PluginChange) (s : Server)
        → AreTidy s.cfg
        → AreTidy (change_plugin is_cidr equal_fold q s).0.cfg
    unfolding change_plugin patch_relay patch_spoof
    change_plugin-Tidy PluginChange.bad_body s d = d
    change_plugin-Tidy (PluginChange.configure_relay req) s d = try_config-Tidy _ _ s d d
    change_plugin-Tidy (PluginChange.configure_spoof req) s d = try_config-Tidy _ _ s d d
    change_plugin-Tidy (PluginChange.relay_sites q) s d =
        relay_sites-Tidy (change_sites equal_fold q s.cfg.relay.sites) s
          (change_sites-Distinct equal_fold fold_sym fold_trans q s.cfg.relay.sites d.0) d
    change_plugin-Tidy (PluginChange.spoof_sites q) s d =
        spoof_sites-Tidy (change_sites equal_fold q s.cfg.sni_spoof.sites) s
          (change_sites-Distinct equal_fold fold_sym fold_trans q s.cfg.sni_spoof.sites d.1) d

    -- No site comes twice: where the test of equal domains is symmetric and transitive, and in memory
    -- no two sites of the relay and no two of the SNI spoof have equal domains, the same holds after
    -- any requests on the plugins, whatever they answer.
    pub change_plugins-Tidy :
        (qs : List PluginChange) (s : Server)
        → AreTidy s.cfg
        → AreTidy (change_plugins is_cidr equal_fold qs s).cfg
    unfolding change_plugins
    change_plugins-Tidy [] s d = d
    change_plugins-Tidy (q ∷ qs) s d =
        change_plugins-Tidy qs (change_plugin is_cidr equal_fold q s).0 (change_plugin-Tidy q s d)
