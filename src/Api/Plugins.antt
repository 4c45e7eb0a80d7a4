-- ===== src/Api/Plugins.antt =====
-- The handlers that change the configuration of the relay and of the SNI spoof
-- (internal/api/relay.go, snispoof.go). `equal_fold` stands for strings.EqualFold; the supervisor
-- that is told of a change, and the audit log, are left out.
use zeroone.Prelude.{
  String, Bool, true, false, ◌||◌, ◌++◌, Option, none, some, List, [], ◌∷◌, str_eq, is_empty,
  if◌then◌else◌,
}
use zeroone.Prelude.Int.{ℤ, pos}
use zeroone.Stack.{Config, RelayConfig, SniSpoofConfig, RelaySite}
use zeroone.Stack.Text.{trim_space}
use zeroone.Stack.Mutate.Outcome.{any_of, update_first, delete_where}
use zeroone.Api.Store.{Server, Reply, done, failed, with_cfg, save_config}
use zeroone.Api.Handlers.{or_same}

-- `trimSlice`
unfoldable pub trim_slice : List String → List String
trim_slice [] = []
trim_slice (v ∷ vs) =
    if is_empty (trim_space v) then trim_slice vs else trim_space v ∷ trim_slice vs

-- The loop of `dedupTrim`; `seen` is the map that it fills.
unfoldable pub dedup_from : List String → List String → List String
dedup_from seen [] = []
dedup_from seen (v ∷ vs) = elim (is_empty (trim_space v) || any_of (str_eq (trim_space v)) seen) [
  | true ↦ dedup_from seen vs
  | false ↦ trim_space v ∷ dedup_from (trim_space v ∷ seen) vs
]

unfoldable pub dedup_trim : List String → List String
dedup_trim vs = dedup_from [] vs

abbrev or_trimmed : String → Option String → String
or_trimmed s none = s
or_trimmed s (some t) = trim_space t

abbrev or_deduped : List String → Option (List String) → List String
or_deduped vs none = vs
or_deduped vs (some ws) = dedup_trim ws

abbrev or_slice : List String → Option (List String) → List String
or_slice vs none = vs
or_slice vs (some ws) = trim_slice ws

-- An empty key keeps the one there is.
abbrev or_key : String → Option String → String
or_key key none = key
or_key key (some fresh) = if is_empty fresh then key else fresh

-- The body of `relayConfigPut`; `none` is a field left out.
pub record RelayPatch : Type 0 where
  pub enabled : Option Bool
  pub listen : Option String
  pub socks_port : Option ℤ
  pub auth_key : Option String
  pub script_url : Option String
  pub deployment_ids : Option (List String)
  pub google_ip : Option String
  pub front_domain : Option String
  pub log_level : Option String
  pub binary : Option String
  pub config_path : Option String
  pub systemd_unit : Option String
  pub outbound_tag : Option String
  pub inbound_tags : Option (List String)
  pub hosts_map : Option (List (String × String))
  pub health_probe : Option String
  pub notes : Option String

unfoldable pub patch_relay : RelayPatch → RelayConfig → RelayConfig
patch_relay req cur = record cur {
  enabled = or_same cur.enabled req.enabled;
  listen = or_trimmed cur.listen req.listen;
  socks_port = or_same cur.socks_port req.socks_port;
  auth_key = or_key cur.auth_key req.auth_key;
  script_url = or_trimmed cur.script_url req.script_url;
  deployment_ids = or_deduped cur.deployment_ids req.deployment_ids;
  google_ip = or_trimmed cur.google_ip req.google_ip;
  front_domain = or_trimmed cur.front_domain req.front_domain;
  log_level = or_trimmed cur.log_level req.log_level;
  binary = or_trimmed cur.binary req.binary;
  config_path = or_trimmed cur.config_path req.config_path;
  systemd_unit = or_trimmed cur.systemd_unit req.systemd_unit;
  outbound_tag = or_trimmed cur.outbound_tag req.outbound_tag;
  inbound_tags = or_deduped cur.inbound_tags req.inbound_tags;
  hosts_map = or_same cur.hosts_map req.hosts_map;
  health_probe = or_trimmed cur.health_probe req.health_probe;
  notes = or_same cur.notes req.notes;
}

-- The body of `snispoofConfigPut`.
pub record SpoofPatch : Type 0 where
  pub enabled : Option Bool
  pub fake_domain : Option String
  pub method : Option String
  pub fake_ttl : Option ℤ
  pub listen : Option String
  pub strategy : Option String
  pub extra_args : Option (List String)
  pub outbound_tag : Option String
  pub inbound_tags : Option (List String)
  pub tun_name : Option String
  pub tun_addr : Option String
  pub firewall_mark : Option ℤ
  pub route_table : Option ℤ
  pub mtu : Option ℤ
  pub binary : Option String
  pub tun2socks_binary : Option String
  pub health_probe : Option String
  pub notes : Option String

unfoldable pub patch_spoof : SpoofPatch → SniSpoofConfig → SniSpoofConfig
patch_spoof req cur = record cur {
  enabled = or_same cur.enabled req.enabled;
  fake_domain = or_trimmed cur.fake_domain req.fake_domain;
  method = or_trimmed cur.method req.method;
  fake_ttl = or_same cur.fake_ttl req.fake_ttl;
  listen = or_trimmed cur.listen req.listen;
  strategy = or_trimmed cur.strategy req.strategy;
  extra_args = or_slice cur.extra_args req.extra_args;
  outbound_tag = or_trimmed cur.outbound_tag req.outbound_tag;
  inbound_tags = or_deduped cur.inbound_tags req.inbound_tags;
  tun_name = or_trimmed cur.tun_name req.tun_name;
  tun_addr = or_trimmed cur.tun_addr req.tun_addr;
  firewall_mark = or_same cur.firewall_mark req.firewall_mark;
  route_table = or_same cur.route_table req.route_table;
  mtu = or_same cur.mtu req.mtu;
  binary = or_trimmed cur.binary req.binary;
  tun2socks_binary = or_trimmed cur.tun2socks_binary req.tun2socks_binary;
  health_probe = or_trimmed cur.health_probe req.health_probe;
  notes = or_same cur.notes req.notes;
}

-- POST, PUT and DELETE on the sites of a plugin; `malformed` is a body that is no JSON.
pub data SiteChange : Type 0 where
  malformed : SiteChange
  add_site replace_site : RelaySite → SiteChange
  delete_site : (domain : String) → SiteChange

abbrev pub trimmed_site : RelaySite → RelaySite
trimmed_site x = record x { domain = trim_space x.domain }

-- The sites after a request, or the status code of its refusal.
pub data Sites : Type 0 where
  refused : (code : ℤ) → Sites
  changed : List RelaySite → Sites

abbrev pub found_site : Option (List RelaySite) → Sites
found_site none = refused (pos 404)
found_site (some xs) = changed xs

module _ (equal_fold : String → String → Bool) where
  -- `strings.EqualFold(existing.Domain, domain)`
  abbrev pub has_domain : String → RelaySite → Bool
  has_domain domain x = equal_fold x.domain domain

  -- `relaySitesPost`, with the site's domain trimmed, up to the save.
  unfoldable pub post_site : RelaySite → List RelaySite → Sites
  post_site req xs =
      if is_empty req.domain
      then refused (pos 400)
      else if any_of (has_domain req.domain) xs
      then refused (pos 409)
      else changed (xs ++ (req ∷ []))

  -- `relaySitesPut`
  unfoldable pub put_site : RelaySite → List RelaySite → Sites
  put_site req xs =
      if is_empty req.domain
      then refused (pos 400)
      else found_site (update_first (has_domain req.domain) (λ x. req) xs)

  -- `relaySitesDelete`
  unfoldable pub remove_site : String → List RelaySite → Sites
  remove_site domain xs =
      if is_empty domain
      then refused (pos 400)
      else if any_of (has_domain domain) xs
      then changed (delete_where (has_domain domain) xs)
      else refused (pos 404)

  unfoldable pub change_sites : SiteChange → List RelaySite → Sites
  change_sites malformed xs = refused (pos 400)
  change_sites (add_site req) xs = post_site (trimmed_site req) xs
  change_sites (replace_site req) xs = put_site (trimmed_site req) xs
  change_sites (delete_site domain) xs = remove_site (trim_space domain) xs

abbrev pub with_relay : Config → RelayConfig → Config
with_relay c r = record c { relay = r }

abbrev pub with_spoof : Config → SniSpoofConfig → Config
with_spoof c p = record c { sni_spoof = p }

abbrev pub with_relay_sites : Config → List RelaySite → Config
with_relay_sites c xs = with_relay c (record c.relay { sites = xs })

abbrev pub with_spoof_sites : Config → List RelaySite → Config
with_spoof_sites c xs = with_spoof c (record c.sni_spoof { sites = xs })

-- `if !s.save(w) { … }`, with what is put back in memory.
unfoldable pub or_undo : (Config → Config) → Server × Bool → Server × Reply
or_undo undo (t, false) = (with_cfg t (undo t.cfg), failed (pos 400))
or_undo undo (t, true) = (t, done)

-- A request to the handlers of either plugin.
pub data PluginChange : Type 0 where
  bad_body : PluginChange
  configure_relay : RelayPatch → PluginChange
  configure_spoof : SpoofPatch → PluginChange
  relay_sites spoof_sites : SiteChange → PluginChange

module _ (is_cidr : String → Bool) (equal_fold : String → String → Bool) where
  -- `c` is stored in memory, then saved.
  unfoldable pub try_config : (Config → Config) → Config → Server → Server × Reply
  unfolding or_undo
  try_config undo c s = or_undo undo (save_config is_cidr (with_cfg s c) c)

  unfoldable pub try_relay_sites : Sites → Server → Server × Reply
  unfolding try_config
  try_relay_sites (refused code) s = (s, failed code)
  try_relay_sites (changed xs) s =
      try_config (λ d. with_relay_sites d s.cfg.relay.sites) (with_relay_sites s.cfg xs) s

  unfoldable pub try_spoof_sites : Sites → Server → Server × Reply
  unfolding try_config
  try_spoof_sites (refused code) s = (s, failed code)
  try_spoof_sites (changed xs) s =
      try_config (λ d. with_spoof_sites d s.cfg.sni_spoof.sites) (with_spoof_sites s.cfg xs) s

  unfoldable pub change_plugin : PluginChange → Server → Server × Reply
  change_plugin bad_body s = (s, failed (pos 400))
  change_plugin (configure_relay req) s =
      try_config (λ d. with_relay d s.cfg.relay) (with_relay s.cfg (patch_relay req s.cfg.relay)) s
  change_plugin (configure_spoof req) s =
      try_config (λ d. with_spoof d s.cfg.sni_spoof)
        (with_spoof s.cfg (patch_spoof req s.cfg.sni_spoof)) s
  change_plugin (relay_sites q) s = try_relay_sites (change_sites equal_fold q s.cfg.relay.sites) s
  change_plugin (spoof_sites q) s =
      try_spoof_sites (change_sites equal_fold q s.cfg.sni_spoof.sites) s

  unfoldable pub change_plugins : List PluginChange → Server → Server
  unfolding change_plugin
  change_plugins [] s = s
  change_plugins (q ∷ qs) s = change_plugins qs (change_plugin q s).0
