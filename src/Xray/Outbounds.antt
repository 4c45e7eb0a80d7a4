-- ===== src/Xray/Outbounds.antt =====
-- The outbounds of the generated configuration (internal/xray/generate.go).
use zeroone.Prelude.{
  ◌++◌, String, Bool, true, false, not, ◌&&◌, ◌||◌, Option, none, some, List, [], ◌∷◌, str_eq,
  is_empty, if◌then◌else◌,
}
use zeroone.Prelude.Int.{ℤ, pos, ltb_ℤ}
use zeroone.Prelude.Json.{
  Json, str, number, flag, array, object, Object, fields, objects, put, put_some,
}
use zeroone.Stack.{Config, Outbound, RelayConfig, SniSpoofConfig}
use zeroone.Stack.Text.{atoi}
use zeroone.Stack.Rules.{net_split_host_port}
use zeroone.Stack.Effective.{
  enabled_sites, relay_listen, relay_outbound_tag, spoof_outbound_tag, spoof_mark,
}

-- The stream settings before `sockopt`.
abbrev outbound_stream : Outbound → Object
outbound_stream o =
    let stream = fields (
      ("network", str "ws")
      ∷ ("wsSettings", object (fields (("path", str o.path) ∷ ("host", str o.host) ∷ [])))
      ∷ []) in
    if str_eq o.kind "vless-ws-tls"
    then put "tlsSettings"
        (object (fields (("serverName", str o.server_name) ∷ ("fingerprint", str "chrome") ∷ [])))
        (put "security" (str "tls") stream)
    else put "security" (str "none") stream

abbrev outbound_sockopt : Outbound → Object
outbound_sockopt o =
    let opened = fields (("tcpFastOpen", flag true) ∷ []) in
    if is_empty o.interface then opened else put "interface" (str o.interface) opened

abbrev pub outbound_mux : Outbound → Option Json
outbound_mux o =
    if ltb_ℤ (pos 0) o.mux_concurrency
    then some (
        object (
          fields (
            ("enabled", flag true)
            ∷ ("concurrency", number o.mux_concurrency)
            ∷ ("xudpConcurrency", number o.mux_concurrency)
            ∷ ("xudpProxyUDP443", str "skip")
            ∷ [])))
    else none

-- The outbound without its `mux`.
abbrev pub unmuxed : Outbound → Object
unmuxed o =
    let user = fields (("id", str o.uuid) ∷ ("encryption", str "none") ∷ []) in
    let server = fields (
      ("address", str o.address)
      ∷ ("port", number o.port)
      ∷ ("users", array (objects (user ∷ [])))
      ∷ []) in
    fields (
      ("tag", str o.tag)
      ∷ ("protocol", str "vless")
      ∷ ("settings", object (fields (("vnext", array (objects (server ∷ []))) ∷ [])))
      ∷ ("streamSettings", object (put "sockopt" (object (outbound_sockopt o)) (outbound_stream o)))
      ∷ [])

unfoldable pub vless_outbound : Outbound → Object
vless_outbound o = put_some "mux" (outbound_mux o) (unmuxed o)

unfoldable pub direct_outbound : Object
direct_outbound = fields (
    ("tag", str "direct")
    ∷ ("protocol", str "freedom")
    ∷ ("settings", object (fields (("domainStrategy", str "UseIPv4") ∷ [])))
    ∷ (
      "streamSettings",
      object (
          fields (
            (
              "sockopt",
              object (fields (("interface", str "eth0") ∷ ("tcpFastOpen", flag true) ∷ [])),
            )
            ∷ [])),
    )
    ∷ [])

unfoldable pub block_outbound : Object
block_outbound = fields (("tag", str "block") ∷ ("protocol", str "blackhole") ∷ [])

abbrev pub no_items {ℓ} : {A : Type ℓ} → List A → Bool
no_items [] = true
no_items (x ∷ xs) = false

abbrev pub local_host : String → String
local_host h = if is_empty h || str_eq h "0.0.0.0" then "127.0.0.1" else h

-- `parseRelayListen`; `none` stands for its `false`.
unfoldable pub parse_relay_listen : String → Option (String × ℤ)
parse_relay_listen addr = elim (net_split_host_port addr) [
  | none ↦ none
  | some (h, p) ↦ elim (atoi p) [ none ↦ none | some n ↦ some (local_host h, n) ]
]

abbrev pub http_outbound : String → String × ℤ → Object
http_outbound tag (host, port) =
    let server = fields (("address", str host) ∷ ("port", number port) ∷ []) in
    fields (
      ("tag", str tag)
      ∷ ("protocol", str "http")
      ∷ ("settings", object (fields (("servers", array (objects (server ∷ []))) ∷ [])))
      ∷ (
        "streamSettings",
        object (fields (("sockopt", object (fields (("tcpFastOpen", flag true) ∷ []))) ∷ [])),
      )
      ∷ [])

-- `relayOutbound`; `none` stands for nil.
unfoldable pub relay_outbound : RelayConfig → Option Object
relay_outbound r =
    if not r.enabled
    then none
    else if no_items (enabled_sites r.sites) && no_items r.inbound_tags
    then none
    else elim (parse_relay_listen (relay_listen r)) [
      | none ↦ none
      | some there ↦ some (http_outbound (relay_outbound_tag r) there)
    ]

-- `snispoofOutbound`
unfoldable pub spoof_outbound : SniSpoofConfig → Option Object
spoof_outbound s =
    if not s.enabled
    then none
    else if no_items (enabled_sites s.sites) && no_items s.inbound_tags
    then none
    else some (
        fields (
          ("tag", str (spoof_outbound_tag s))
          ∷ ("protocol", str "freedom")
          ∷ ("settings", object (fields (("domainStrategy", str "UseIPv4") ∷ [])))
          ∷ (
            "streamSettings",
            object (
                fields (
                  (
                    "sockopt",
                    object (
                        fields (("mark", number (spoof_mark s)) ∷ ("tcpFastOpen", flag true) ∷ [])),
                  )
                  ∷ [])),
          )
          ∷ []))

abbrev pub listed : Option Object → List Object
listed none = []
listed (some o) = o ∷ []

unfoldable pub outbounds : Config → List Object
outbounds c =
    vless_outbound c.xray.outbounds.proxy
    ∷ vless_outbound c.xray.outbounds.fallback
    ∷ direct_outbound
    ∷ block_outbound
    ∷ (listed (relay_outbound c.relay) ++ listed (spoof_outbound c.sni_spoof))
