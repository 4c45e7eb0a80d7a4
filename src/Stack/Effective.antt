-- ===== src/Stack/Effective.antt =====
-- The `Effective…` readers of the configuration blocks (internal/stack/config.go): a field, with
-- its default where it is not set.
use zeroone.Prelude.{
  ℕ, String, not, ◌&&◌, ◌||◌, List, [], ◌∷◌, map, str_eq, is_empty, if◌then◌else◌,
}
use zeroone.Prelude.Int.{ℤ, pos, eqb_ℤ, leb_ℤ}
use zeroone.Stack.Defs.{
  RelaySite, RelayConfig, SniSpoofConfig, InboundConfig, User, FailoverConfig, ProbeTarget,
}

abbrev pub or_text : String → String → String
or_text s d = if is_empty s then d else s

abbrev pub or_positive : ℤ → ℕ → ℤ
or_positive n d = if leb_ℤ n (pos 0) then pos d else n

-- The loop of `EnabledSites`, which both plugins have.
unfoldable pub enabled_sites : List RelaySite → List RelaySite
enabled_sites [] = []
enabled_sites (s ∷ ss) =
    let rest = enabled_sites ss in if s.enabled && not (is_empty s.domain) then s ∷ rest else rest

unfoldable pub enabled_domains : List RelaySite → List String
unfolding enabled_sites
enabled_domains ss = map (λ s. s.domain) (enabled_sites ss)

unfoldable pub relay_listen : RelayConfig → String
relay_listen r = or_text r.listen "127.0.0.1:8085"

unfoldable pub relay_outbound_tag : RelayConfig → String
relay_outbound_tag r = or_text r.outbound_tag "relay-mhrv"

unfoldable pub spoof_listen : SniSpoofConfig → String
spoof_listen c = or_text c.listen "127.0.0.1:8087"

unfoldable pub spoof_outbound_tag : SniSpoofConfig → String
spoof_outbound_tag c = or_text c.outbound_tag "sni-spoof"

unfoldable pub spoof_method : SniSpoofConfig → String
spoof_method c = or_text c.method "fake"

unfoldable pub spoof_fake_domain : SniSpoofConfig → String
spoof_fake_domain c = or_text c.fake_domain "www.cloudflare.com"

unfoldable pub spoof_fake_ttl : SniSpoofConfig → ℤ
spoof_fake_ttl c = or_positive c.fake_ttl 8

unfoldable pub spoof_tun_name : SniSpoofConfig → String
spoof_tun_name c = or_text c.tun_name "znspoof0"

unfoldable pub spoof_tun_addr : SniSpoofConfig → String
spoof_tun_addr c = or_text c.tun_addr "10.99.0.1/24"

unfoldable pub spoof_mark : SniSpoofConfig → ℤ
spoof_mark c = or_positive c.firewall_mark 0x1be1

unfoldable pub spoof_table : SniSpoofConfig → ℤ
spoof_table c = or_positive c.route_table 7137

unfoldable pub spoof_mtu : SniSpoofConfig → ℤ
spoof_mtu c = or_positive c.mtu 1420

unfoldable pub vless_xhttp_path : InboundConfig → String
vless_xhttp_path i = or_text i.vless_xhttp_path "/xhttp"

unfoldable pub vless_xhttp_mode : InboundConfig → String
vless_xhttp_mode i = or_text i.vless_xhttp_mode "auto"

unfoldable pub daily_reset_hhmm : User → String
daily_reset_hhmm u = or_text u.daily_reset_hhmm "00:00"

-- `FailoverConfig.EffectiveMode`: any other text means "auto".
unfoldable pub failover_mode : FailoverConfig → String
failover_mode f = if str_eq f.mode "manual" || str_eq f.mode "preferred" then f.mode else "auto"

abbrev pub or_443 : ℤ → ℤ
or_443 p = if eqb_ℤ p (pos 0) then pos 443 else p

usable_probes : List ProbeTarget → List ProbeTarget
usable_probes [] = []
usable_probes (p ∷ ps) =
    let rest = usable_probes ps in
    if is_empty p.address then rest else record p { port = or_443 p.port } ∷ rest

single_probe : FailoverConfig → List ProbeTarget
single_probe f = record { address = or_text f.probe_ip "1.1.1.1"; port = or_443 f.probe_port } ∷ []

abbrev non_empty_or {ℓ} : {A : Type ℓ} → List A → List A → List A
non_empty_or [] d = d
non_empty_or (x ∷ xs) d = x ∷ xs

unfoldable pub probe_targets : FailoverConfig → List ProbeTarget
unfolding usable_probes single_probe
probe_targets f = non_empty_or (usable_probes f.probes) (single_probe f)
