-- ===== src/Api/Undone.antt =====
-- What a refused request on a plugin leaves behind (internal/api/relay.go, snispoof.go).
use zeroone.Prelude.{◌≡◌, refl, ap, ◌⊎◌, inl, inr, String, Bool, true, false, some, if◌then◌else◌}
use zeroone.Prelude.Int.{ℤ, pos}
use zeroone.Stack.{Config}
use zeroone.Api.Store.{Server, Reply, done, failed, is_valid, with_cfg, save_config}
use zeroone.Api.Plugins.{
  Sites, refused, changed, change_sites, with_relay_sites, with_spoof_sites, or_undo, PluginChange,
  try_config, try_relay_sites, try_spoof_sites, change_plugin,
}

module _ (is_cidr : String → Bool) (equal_fold : String → String → Bool) where
  -- Served and stored, or refused and without a trace.
  abbrev pub Settles : Server → Server × Reply → Type 0
  Settles s (t, r) =
      ((r ≡ done) × (t.disk ≡ some t.cfg) × (is_valid is_cidr t.cfg ≡ true))
      ⊎ ((code : ℤ) × (r ≡ failed code) × (t ≡ s))

  or_undo-if :
      (b : Bool) (undo : Config → Config) (c : Config) (s : Server)
      → undo c ≡ s.cfg
      → is_valid is_cidr c ≡ b
      → Settles s (
          or_undo undo
            (if b then (record { cfg = c; disk = some c }, true) else (with_cfg s c, false)))
  unfolding or_undo
  or_undo-if true undo c s e valid = inl (refl, refl, valid)
  or_undo-if false undo c s e bad = inr (pos 400, refl, ap (with_cfg s) e)

  try_config-Settles :
      (undo : Config → Config) (c : Config) (s : Server)
      → undo c ≡ s.cfg
      → Settles s (try_config is_cidr equal_fold undo c s)
  unfolding try_config save_config
  try_config-Settles undo c s e = or_undo-if (is_valid is_cidr c) undo c s e refl

  relay_sites-Settles :
      (answer : Sites) (s : Server) → Settles s (try_relay_sites is_cidr equal_fold answer s)
  unfolding try_relay_sites
  relay_sites-Settles (refused code) s = inr (code, refl, refl)
  relay_sites-Settles (changed xs) s =
      try_config-Settles (λ d. with_relay_sites d s.cfg.relay.sites) (with_relay_sites s.cfg xs) s
        refl

  spoof_sites-Settles :
      (answer : Sites) (s : Server) → Settles s (try_spoof_sites is_cidr equal_fold answer s)
  unfolding try_spoof_sites
  spoof_sites-Settles (refused code) s = inr (code, refl, refl)
  spoof_sites-Settles (changed xs) s =
      try_config-Settles (λ d. with_spoof_sites d s.cfg.sni_spoof.sites) (with_spoof_sites s.cfg xs)
        s refl

  -- A request on a plugin is all or nothing: it is answered with 200, the file then holds what is in
  -- memory, and `Validate` accepts it; or it is answered with an error, and memory and file are as
  -- they were.
  pub change_plugin-settles :
      (q : PluginChange) (s : Server)
      → (((change_plugin is_cidr equal_fold q s).1 ≡ done)
          × ((change_plugin is_cidr equal_fold q s).0.disk
              ≡ some (change_plugin is_cidr equal_fold q s).0.cfg)
          × (is_valid is_cidr (change_plugin is_cidr equal_fold q s).0.cfg ≡ true))
        ⊎ ((code : ℤ) × ((change_plugin is_cidr equal_fold q s).1 ≡ failed code)
            × ((change_plugin is_cidr equal_fold q s).0 ≡ s))
  unfolding change_plugin
  change_plugin-settles PluginChange.bad_body s = inr (pos 400, refl, refl)
  change_plugin-settles (PluginChange.configure_relay req) s = try_config-Settles _ _ s refl
  change_plugin-settles (PluginChange.configure_spoof req) s = try_config-Settles _ _ s refl
  change_plugin-settles (PluginChange.relay_sites q) s =
      relay_sites-Settles (change_sites equal_fold q s.cfg.relay.sites) s
  change_plugin-settles (PluginChange.spoof_sites q) s =
      spoof_sites-Settles (change_sites equal_fold q s.cfg.sni_spoof.sites) s
