-- ===== src/Plugins/Agree.antt =====
-- The plugin's processes take the address that the configuration was checked with
-- (internal/snispoof/config.go, internal/stack/config.go).
use zeroone.Prelude.{
  ◌≡◌, ◌≢◌, refl, ap, ◌∙◌, sym, inl, inr, arith, String, Bool, true, false, ◌||◌, none, some, List,
  [], ◌∷◌, ◌++◌, is_empty, str_eq_iff, append_text, if◌then◌else◌, Bool-cases,
}
use zeroone.Prelude.Int.{ℤ, pos, eqb_ℤ}
use zeroone.Prelude.Result.{Result, ok, err, >>=-eq-ok}
use zeroone.Stack.{Config, SniSpoofConfig, OutboundSet, RelayConfig}
use zeroone.Stack.Rules.{Invalid, spoof_listen_address, split_host_port}
use zeroone.Stack.Validate.{
  listen_port, is_spoof_method, check_spoof_fields, spoof_rules, check_spoof, validate,
}
use zeroone.Stack.Valid.Stages.{validate-Passed}
use zeroone.Stack.Text.{trim_space}
use zeroone.Stack.Effective.{spoof_listen, spoof_method, spoof_tun_name, spoof_mtu}
use zeroone.Stack.Text.Search.{words}
use zeroone.Stack.Text.Decimal.{show_ℤ}
use zeroone.Xray.Outbounds.{local_host}
use zeroone.Plugins.Listen.{if-yes, option-cases, split_listen, split_host_port-listen}
use zeroone.Plugins.Spoof.{
  log_level, method_args, desync_args, byedpi_args, proxy_address, tun2socks_args,
}

no_method : (s : SniSpoofConfig) → method_args s ≡ none → is_spoof_method (spoof_method s) ≡ false
unfolding method_args is_spoof_method
no_method s e = ground (arith, e)

-- A known method has its arguments.
method_args-known :
    (s : SniSpoofConfig)
    → is_spoof_method (spoof_method s) ≡ true
    → (args : List String) × (method_args s ≡ some args)
method_args-known s h = elim (option-cases (method_args s)) [
  | inl missing ↦ let other = no_method s missing in cc
  | inr found ↦ found
]

desync_args-known :
    (s : SniSpoofConfig)
    → is_spoof_method (spoof_method s) ≡ true
    → (args : List String) × (desync_args s ≡ some args)
unfolding desync_args
desync_args-known s h =
    let (args, known) = method_args-known s h in
    elim (Bool-cases (is_empty (trim_space s.strategy))) [
      | inl blank ↦ (args ++ s.extra_args, rw (blank, known, desync_args) refl)
      | inr set ↦ (words s.strategy ++ s.extra_args, rw (set, desync_args) refl)
    ]

address-port :
    (bad : Invalid) (host : String) (found port : ℤ)
    → ◌≡◌ {A = Result Invalid ℤ}
        (if is_empty host || eqb_ℤ found (pos 0) then err bad else ok found)
        (ok port)
    → (found ≡ port) × (is_empty host ≡ false)
address-port bad host found port e = (ground (arith, e), ground (arith, e))

pub listen_port-address :
    (bad : Invalid) (listen : String) (port : ℤ)
    → listen_port bad listen ≡ ok port
    → (host : String) × (split_host_port listen ≡ some (host, port)) × (is_empty host ≡ false)
unfolding listen_port
listen_port-address bad listen port e = elim (option-cases (split_host_port listen)) [
  | inl missing ↦
      let whole : listen_port bad listen ≡ err bad = rw (missing, listen_port) refl in cc
  | inr (x, found) ↦
      let whole : listen_port bad listen
          ≡ (if is_empty x.0 || eqb_ℤ x.1 (pos 0) then err bad else ok x.1) =
        rw (found, listen_port) refl in
      let (same, named) = address-port bad x.0 x.1 port (sym whole ∙ e) in
      (x.0, found ∙ ap (λ p. some (x.0, p)) same, named)
]

pub is_empty-nil : (s : String) → is_empty s ≡ false → s ≢ String.[]
is_empty-nil s h e = let empty = (str_eq_iff s "").1 e in cc

fields-method :
    (is_cidr : String → Bool) (s : SniSpoofConfig) (o : OutboundSet) (r : RelayConfig)
    → check_spoof_fields is_cidr s o r ≡ ok tt
    → is_spoof_method (spoof_method s) ≡ true
unfolding check_spoof_fields
fields-method is_cidr s o r h = ground (arith, h)

-- What `Validate` has found of the address and the method.
validate-spoof :
    (is_cidr : String → Bool) (c : Config)
    → validate is_cidr c ≡ ok tt
    → c.sni_spoof.enabled ≡ true
    → ((port : ℤ) × (listen_port spoof_listen_address (spoof_listen c.sni_spoof) ≡ ok port))
      × (is_spoof_method (spoof_method c.sni_spoof) ≡ true)
unfolding check_spoof spoof_rules check_spoof_fields
validate-spoof is_cidr c valid on =
    let passed = validate-Passed is_cidr c valid in
    let rules : spoof_rules is_cidr c.sni_spoof c.xray.outbounds c.relay passed.socks_table
        ≡ ok tt =
      sym (if-yes c.sni_spoof.enabled _ (ok tt) on) ∙ passed.spoof in
    let (port, listens, later) = >>=-eq-ok _ _ rules in
    let fields = check_spoof_fields is_cidr c.sni_spoof c.xray.outbounds c.relay in
    let (_, sound, _) = >>=-eq-ok fields _ later in
    ((port, listens), fields-method is_cidr c.sni_spoof c.xray.outbounds c.relay sound)

-- The plugin's processes use the address that `Validate` checked: in a configuration that `Validate`
-- accepts, with sni_spoof enabled, the listen address has a host and a port, `ByeDPIArgs` reports no
-- error and begins with that host and that port, and `Tun2socksArgs` names the port and the host, or
-- 127.0.0.1 for the host 0.0.0.0.
pub byedpi_args-validated :
    (is_cidr : String → Bool) (to_lower : String → String) (c : Config) (level : String)
    → validate is_cidr c ≡ ok tt
    → c.sni_spoof.enabled ≡ true
    → (host : String) × (port : ℤ) × (args : List String) × (more : List String) × (split_host_port
          (spoof_listen c.sni_spoof)
        ≡ some (host, port))
      × (byedpi_args c.sni_spoof ≡ some ("-i" ∷ host ∷ "-p" ∷ show_ℤ port ∷ args))
      × (tun2socks_args to_lower c.sni_spoof level
          ≡ "-device"
            ∷ append_text "tun://" (spoof_tun_name c.sni_spoof)
            ∷ "-proxy"
            ∷ append_text "socks5://"
                (append_text (local_host host) (append_text ":" (show_ℤ port)))
            ∷ more)
unfolding byedpi_args tun2socks_args proxy_address
byedpi_args-validated is_cidr to_lower c level valid on =
    let ((port, listens), known) = validate-spoof is_cidr c valid on in
    let (host, found, named) =
      listen_port-address spoof_listen_address (spoof_listen c.sni_spoof) port listens in
    let (args, desync) = desync_args-known c.sni_spoof known in
    let split : split_listen (spoof_listen c.sni_spoof) ≡ some (host, port) =
      split_host_port-listen (spoof_listen c.sni_spoof) host port found (is_empty-nil host named) in
    (
      host,
      port,
      args,
      "-loglevel" ∷ log_level to_lower level ∷ "-mtu" ∷ show_ℤ (spoof_mtu c.sni_spoof) ∷ [],
      found,
      rw (split, desync, byedpi_args) refl,
      rw (split, tun2socks_args, proxy_address) refl,
    )
