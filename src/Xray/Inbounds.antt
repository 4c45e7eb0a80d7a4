-- ===== src/Xray/Inbounds.antt =====
-- The inbounds of the generated configuration (internal/xray/generate.go).
use zeroone.Prelude.{
  ◌++◌, String, Bool, true, not, ◌&&◌, ◌||◌, Option, none, some, List, [], ◌∷◌, is_empty,
  append_text, if◌then◌else◌,
}
use zeroone.Prelude.Int.{ℤ, pos, ltb_ℤ, eqb_ℤ}
use zeroone.Prelude.Json.{
  Json, str, number, flag, array, object, Object, fields, texts, objects, put, put_some,
}
use zeroone.Stack.{Config, User, SocksInbound, XhttpInboundTuning}
use zeroone.Stack.Text.{atoi}
use zeroone.Stack.Effective.{vless_xhttp_path, vless_xhttp_mode}

unfoldable pub sniffing : Object
sniffing = fields (
    ("enabled", flag true)
    ∷ ("destOverride", array (texts ("http" ∷ "tls" ∷ "quic" ∷ [])))
    ∷ ("routeOnly", flag true)
    ∷ [])

abbrev clients_settings : List Object → Object
clients_settings clients =
    fields (("clients", array (objects clients)) ∷ ("decryption", str "none") ∷ [])

abbrev pub tagged : String → Object → Object
tagged tag o = if is_empty tag then o else put "tag" (str tag) o

unfoldable pub vless_ws_inbound : String → ℤ → String → List Object → String → Bool → Object
vless_ws_inbound tag port listen clients path fast_open =
    let stream =
      fields
        (("network", str "ws") ∷ ("wsSettings", object (fields (("path", str path) ∷ []))) ∷ []) in
    let opened =
      if fast_open
      then put "sockopt" (object (fields (("tcpFastOpen", flag true) ∷ []))) stream
      else stream in
    tagged tag (
      fields (
        ("port", number port)
        ∷ ("listen", str listen)
        ∷ ("protocol", str "vless")
        ∷ ("settings", object (clients_settings clients))
        ∷ ("streamSettings", object opened)
        ∷ ("sniffing", object sniffing)
        ∷ []))

-- A number where the text is one, the text where it is a range, nothing where it is empty.
unfoldable pub range_or_int : String → Option Json
range_or_int s =
    if is_empty s then none else elim (atoi s) [ none ↦ some (str s) | some n ↦ some (number n) ]

abbrev pub positive : ℤ → Option Json
positive n = if ltb_ℤ (pos 0) n then some (number n) else none

abbrev pub set_flag : Option Bool → Option Json
set_flag none = none
set_flag (some b) = some (flag b)

unfoldable pub apply_tuning : XhttpInboundTuning → Object → Object
apply_tuning t settings = put_some "noGRPCHeader" (set_flag t.no_grpc_header) (
    put_some "noSSEHeader" (set_flag t.no_sse_header) (
      put_some "keepAlivePeriod" (positive t.keep_alive_period) (
        put_some "scStreamUpServerSecs" (range_or_int t.sc_stream_up_server_secs) (
          put_some "scMaxEachPostBytes" (range_or_int t.sc_max_each_post_bytes) (
            put_some "scMaxBufferedPosts" (positive t.sc_max_buffered_posts)
              (put_some "xPaddingBytes" (range_or_int t.x_padding_bytes) settings))))))

unfoldable pub vless_xhttp_inbound :
    String → ℤ → String → List Object → String → String → XhttpInboundTuning → Object
vless_xhttp_inbound tag port listen clients path mode tuning =
    let bare = fields (("path", str path) ∷ []) in
    let moded = if is_empty mode then bare else put "mode" (str mode) bare in
    tagged tag (
      fields (
        ("port", number port)
        ∷ ("listen", str listen)
        ∷ ("protocol", str "vless")
        ∷ ("settings", object (clients_settings clients))
        ∷ (
          "streamSettings",
          object (
              fields (
                ("network", str "xhttp")
                ∷ ("xhttpSettings", object (apply_tuning tuning moded))
                ∷ [])),
        )
        ∷ ("sniffing", object sniffing)
        ∷ []))

unfoldable pub socks_inbound : SocksInbound → Object
socks_inbound s =
    let account = fields (("user", str s.username) ∷ ("pass", str s.password) ∷ []) in
    fields (
      ("tag", str (append_text "managed-socks-" s.name))
      ∷ ("port", number s.port)
      ∷ ("listen", str s.listen)
      ∷ ("protocol", str "socks")
      ∷ (
        "settings",
        object (
            fields (
              ("auth", str "password")
              ∷ ("accounts", array (objects (account ∷ [])))
              ∷ ("udp", flag true)
              ∷ [])),
      )
      ∷ ("sniffing", object sniffing)
      ∷ [])

unfoldable pub client : User → Object
client u = fields (("id", str u.uuid) ∷ ("email", str u.email) ∷ [])

unfoldable pub limited_path : User → String
limited_path u = append_text "/limited/" u.email

unfoldable pub limited_inbound : User → Object
unfolding limited_path client
limited_inbound u = fields (
    ("tag", str (append_text "limited-" u.email))
    ∷ ("port", number u.bandwidth_port)
    ∷ ("listen", str "0.0.0.0")
    ∷ ("protocol", str "vless")
    ∷ ("settings", object (clients_settings (client u ∷ [])))
    ∷ (
      "streamSettings",
      object (
          fields (
            ("network", str "ws")
            ∷ ("security", str "none")
            ∷ ("wsSettings", object (fields (("path", str (limited_path u)) ∷ [])))
            ∷ ("sockopt", object (fields (("tcpFastOpen", flag true) ∷ [])))
            ∷ [])),
    )
    ∷ ("sniffing", object sniffing)
    ∷ [])

unfoldable pub or_port : ℤ → ℤ → ℤ
or_port port d = if eqb_ℤ port (pos 0) then d else port

unfoldable pub local_socks_inbound : ℤ → Object
unfolding or_port
local_socks_inbound port = fields (
    ("port", number (or_port port (pos 10808)))
    ∷ ("listen", str "127.0.0.1")
    ∷ ("protocol", str "socks")
    ∷ ("settings", object (fields (("auth", str "noauth") ∷ ("udp", flag true) ∷ [])))
    ∷ ("sniffing", object sniffing)
    ∷ [])

unfoldable pub api_inbound : ℤ → Object
unfolding or_port
api_inbound port = fields (
    ("tag", str "xray-api")
    ∷ ("listen", str "127.0.0.1")
    ∷ ("port", number (or_port port (pos 10085)))
    ∷ ("protocol", str "dokodemo-door")
    ∷ ("settings", object (fields (("address", str "127.0.0.1") ∷ [])))
    ∷ [])

-- A bandwidth port and a rate: the user has an inbound of its own.
abbrev pub is_limited : User → Bool
is_limited u =
    ltb_ℤ (pos 0) u.bandwidth_port && (ltb_ℤ (pos 0) u.download_mbps || ltb_ℤ (pos 0) u.upload_mbps)

-- The first loop of `Generate`.
unfoldable pub unlimited_clients : List User → List Object
unlimited_clients [] = []
unlimited_clients (u ∷ us) =
    let rest = unlimited_clients us in
    if not u.enabled then rest else if is_limited u then rest else client u ∷ rest

unfoldable pub socks_inbounds : List SocksInbound → List Object
socks_inbounds [] = []
socks_inbounds (s ∷ ss) = socks_inbound s ∷ socks_inbounds ss

-- The third loop of `Generate`.
unfoldable pub limited_inbounds : List User → List Object
limited_inbounds [] = []
limited_inbounds (u ∷ us) =
    let rest = limited_inbounds us in
    if u.enabled && is_limited u then limited_inbound u ∷ rest else rest

unfoldable pub public_inbound : Config → Object
public_inbound c =
    vless_ws_inbound "vless-public" c.xray.inbounds.vless_ws_port "0.0.0.0"
      (unlimited_clients c.xray.users) "/vless" true

unfoldable pub xhttp_inbound : Config → Object
xhttp_inbound c =
    vless_xhttp_inbound "vless-xhttp-local" c.xray.inbounds.vless_xhttp_port "127.0.0.1"
      (unlimited_clients c.xray.users) (vless_xhttp_path c.xray.inbounds)
      (vless_xhttp_mode c.xray.inbounds) c.xray.inbounds.vless_xhttp_tuning

unfoldable pub inbounds : Config → List Object
inbounds c =
    public_inbound c
    ∷ (socks_inbounds c.xray.inbounds.public_socks
        ++ (limited_inbounds c.xray.users
            ++ (local_socks_inbound c.xray.inbounds.local_socks_port
                ∷ xhttp_inbound c
                ∷ api_inbound c.xray.api_port
                ∷ [])))
