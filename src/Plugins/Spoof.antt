-- ===== src/Plugins/Spoof.antt =====
-- The command lines of the two processes of the sni_spoof plugin (internal/snispoof/config.go).
-- `to_lower` stands for `strings.ToLower`.
use zeroone.Prelude.{
  String, not, ◌||◌, Option, none, some, List, [], ◌∷◌, ◌++◌, str_eq, is_empty, append_text,
  if◌then◌else◌,
}
use zeroone.Prelude.Int.{ℤ, pos}
use zeroone.Stack.{SniSpoofConfig}
use zeroone.Stack.Text.{trim_space}
use zeroone.Stack.Text.Search.{words}
use zeroone.Stack.Text.Decimal.{show_ℤ}
use zeroone.Stack.Effective.{
  spoof_listen, spoof_fake_ttl, spoof_fake_domain, spoof_method, spoof_tun_name, spoof_mtu,
}
use zeroone.Xray.Outbounds.{local_host}
use zeroone.Plugins.Listen.{split_listen}

abbrev fake : SniSpoofConfig → List String
fake s =
    "-K" ∷ "t" ∷ "-f" ∷ "1+s" ∷ "-t" ∷ show_ℤ (spoof_fake_ttl s) ∷ "-n" ∷ spoof_fake_domain s ∷ []

-- The switch over the method; `none` stands for its default.
unfoldable pub method_args : SniSpoofConfig → Option (List String)
method_args s =
    let m = spoof_method s in
    if str_eq m "fake"
    then some (fake s)
    else if str_eq m "split"
    then some ("-K" ∷ "t" ∷ "-s" ∷ "1+s" ∷ [])
    else if str_eq m "disorder"
    then some ("-K" ∷ "t" ∷ "-d" ∷ "1+s" ∷ [])
    else if str_eq m "auto"
    then some ("-A" ∷ "torst,ssl_err" ∷ fake s)
    else none

-- The arguments behind the address.
unfoldable pub desync_args : SniSpoofConfig → Option (List String)
unfolding method_args
desync_args s =
    if not (is_empty (trim_space s.strategy))
    then some (words s.strategy ++ s.extra_args)
    else elim (method_args s) [ none ↦ none | some args ↦ some (args ++ s.extra_args) ]

-- `ByeDPIArgs`; `none` stands for its errors.
unfoldable pub byedpi_args : SniSpoofConfig → Option (List String)
byedpi_args s = elim (split_listen (spoof_listen s)) [
  | none ↦ none
  | some (host, port) ↦ elim (desync_args s) [
    | none ↦ none
    | some args ↦ some ("-i" ∷ host ∷ "-p" ∷ show_ℤ port ∷ args)
  ]
]

-- The address without its error.
unfoldable pub proxy_address : String → String × ℤ
proxy_address listen = elim (split_listen listen) [
  | none ↦ (local_host "", pos 0)
  | some (host, port) ↦ (local_host host, port)
]

module _ (to_lower : String → String) where
  -- `tun2socksLogLevel`
  unfoldable pub log_level : String → String
  log_level s =
      let l = to_lower (trim_space s) in
      if str_eq l "debug"
      then "debug"
      else if str_eq l "info"
      then "info"
      else if str_eq l "warn" || str_eq l "warning"
      then "warn"
      else if str_eq l "error"
      then "error"
      else if str_eq l "none" || str_eq l "silent"
      then "silent"
      else "info"

  -- `Tun2socksArgs`
  unfoldable pub tun2socks_args : SniSpoofConfig → String → List String
  tun2socks_args s level =
      let there = proxy_address (spoof_listen s) in
      "-device"
      ∷ append_text "tun://" (spoof_tun_name s)
      ∷ "-proxy"
      ∷ append_text "socks5://" (append_text there.0 (append_text ":" (show_ℤ there.1)))
      ∷ "-loglevel"
      ∷ log_level level
      ∷ "-mtu"
      ∷ show_ℤ (spoof_mtu s)
      ∷ []
