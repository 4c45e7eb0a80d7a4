-- ===== src/Subscription/Encode.antt =====
-- The formats of a subscription, and sing-box's (internal/subscription/encode.go). `parse_url` stands for
-- `url.Parse`, none where it fails, and `base64` for the standard encoding of a text's bytes.
use zeroone.Prelude.{
  ◌^◌, ◌-◌, String, Bool, true, not, ◌||◌, Option, none, some, List, [], ◌∷◌, ◌++◌, str_eq,
  is_empty, if◌then◌else◌,
}
use zeroone.Prelude.Int.{ℤ, pos}
use zeroone.Prelude.Assoc.{get_or}
use zeroone.Prelude.Json.{
  str, number, flag, array, object, texts, objects, Object, empty, fields, put,
}
use zeroone.Stack.Text.{atoi}
use zeroone.Links.Names.{Link, concat}

-- `Format`
pub data Format : Type 0 where
  plain clash sing_box : Format

-- `Format.String`
unfoldable pub format_name : Format → String
format_name clash = "clash"
format_name sing_box = "sing-box"
format_name plain = "base64"

-- `Format.ContentType`
unfoldable pub content_type : Format → String
content_type clash = "application/x-yaml; charset=utf-8"
content_type sing_box = "application/json; charset=utf-8"
content_type plain = "text/plain; charset=utf-8"

-- The parts of a `url.URL` that are read; a port is none or digits.
pub record Url : Type 0 where
  pub scheme : String
  pub username : String
  pub hostname : String
  pub port : String
  pub query : List (String × String)

-- `parsed`
pub record Parsed : Type 0 where
  pub uuid : String
  pub host : String
  pub port : ℤ
  pub transport : String
  pub path : String
  pub host_header : String
  pub sni : String
  pub tls : Bool
  pub mode : String

-- The number of a port's digits: `Atoi` gives the greatest `int` beside its error of range.
unfoldable pub port_number : String → ℤ
port_number p = if is_empty p then pos 0 else elim (atoi p) [ some n ↦ n | none ↦ pos (2 ^ 63 - 1) ]

-- What `parseVLESS` reads.
unfoldable pub parsed_of : Url → Parsed
parsed_of u =
    let param = λ (k : String). get_or "" k u.query in
    record {
      uuid = u.username;
      host = u.hostname;
      port = port_number u.port;
      transport = if is_empty (param "type") then "tcp" else param "type";
      path = param "path";
      host_header = param "host";
      sni = param "sni";
      tls = str_eq (param "security") "tls";
      mode = param "mode";
    }

-- `headerMap`
unfoldable pub header_map : String → Object
header_map host = if is_empty host then empty else fields (("Host", str host) ∷ [])

-- `defaultTag`
unfoldable pub default_tag : List String → String
default_tag [] = ""
default_tag (t ∷ ts) = t

abbrev pub put_text : String → String → Object → Object
put_text k v o = if is_empty v then o else put k (str v) o

unfoldable pub xhttp_transport : Parsed → Object
xhttp_transport p =
    let base = fields (("type", str "xhttp") ∷ ("path", str p.path) ∷ []) in
    let hosted =
      if is_empty p.host_header
      then base
      else put "host" (array (texts (p.host_header ∷ []))) base in
    put_text "mode" p.mode hosted

-- The switch over the transport.
unfoldable pub with_transport : Parsed → Object → Object
unfolding xhttp_transport header_map
with_transport p o =
    if str_eq p.transport "ws"
    then put "transport"
        (object (
          fields (
            ("type", str "ws")
            ∷ ("path", str p.path)
            ∷ ("headers", object (header_map p.host_header))
            ∷ [])))
        o
    else if str_eq p.transport "xhttp" || str_eq p.transport "splithttp"
    then put "transport" (object (xhttp_transport p)) o
    else o

unfoldable pub with_tls : Parsed → Object → Object
with_tls p o =
    if p.tls
    then put "tls"
        (object (
          fields (
            ("enabled", flag true)
            ∷ ("server_name", str p.sni)
            ∷ (
              "utls",
              object (fields (("enabled", flag true) ∷ ("fingerprint", str "chrome") ∷ [])),
            )
            ∷ [])))
        o
    else o

-- The outbound of a link.
unfoldable pub link_outbound : String → Parsed → Object
unfolding with_transport with_tls
link_outbound name p = with_tls p (
    with_transport p (
      fields (
        ("type", str "vless")
        ∷ ("tag", str name)
        ∷ ("server", str p.host)
        ∷ ("server_port", number p.port)
        ∷ ("uuid", str p.uuid)
        ∷ ("flow", str "")
        ∷ ("packet_encoding", str "xudp")
        ∷ [])))

unfoldable pub link_outbounds : List (String × Parsed) → List Object
link_outbounds [] = []
link_outbounds ((name, p) ∷ ps) = link_outbound name p ∷ link_outbounds ps

unfoldable pub names_of : List (String × Parsed) → List String
names_of [] = []
names_of ((name, p) ∷ ps) = name ∷ names_of ps

abbrev pub closing_outbounds : List String → List Object
closing_outbounds tags =
    fields (
      ("type", str "selector")
      ∷ ("tag", str "ZeroOne")
      ∷ ("outbounds", array (texts tags))
      ∷ ("default", str (default_tag tags))
      ∷ [])
    ∷ fields (("type", str "direct") ∷ ("tag", str "direct") ∷ [])
    ∷ fields (("type", str "block") ∷ ("tag", str "block") ∷ [])
    ∷ []

-- The outbounds of links with their names.
unfoldable pub outbounds_of : List (String × Parsed) → List Object
unfolding link_outbounds names_of default_tag
outbounds_of ps = link_outbounds ps ++ closing_outbounds (names_of ps)

module _ (parse_url : String → Option Url) where
  -- `parseVLESS`; `none` stands for nil.
  unfoldable pub parse_vless : String → Option Parsed
  parse_vless raw = elim (parse_url raw) [
    | none ↦ none
    | some u ↦ if not (str_eq u.scheme "vless") then none else some (parsed_of u)
  ]

  -- The links that can be read.
  unfoldable pub readable : List Link → List (String × Parsed)
  readable [] = []
  readable (l ∷ ls) =
      let rest = readable ls in
      elim (parse_vless l.url) [ none ↦ rest | some p ↦ (l.name, p) ∷ rest ]

  -- The outbounds of `EncodeSingBox`.
  unfoldable pub sing_box_outbounds : List Link → List Object
  sing_box_outbounds all = outbounds_of (readable all)

  -- `EncodeSingBox`, before `json.MarshalIndent`.
  unfoldable pub encode_sing_box : List Link → Object
  encode_sing_box all = fields (
      ("outbounds", array (objects (sing_box_outbounds all)))
      ∷ (
        "route",
        object (
            fields (
              (
                "rules",
                array (
                    objects
                      (fields (("protocol", str "dns") ∷ ("outbound", str "direct") ∷ []) ∷ [])),
              )
              ∷ ("final", str "ZeroOne")
              ∷ ("auto_detect_interface", flag true)
              ∷ [])),
      )
      ∷ [])

-- The lines of `EncodeBase64`.
unfoldable pub url_lines : List Link → String
url_lines [] = ""
url_lines (l ∷ ls) = concat (l.url ∷ "\n" ∷ url_lines ls ∷ [])

unfoldable pub encode_base64 : (String → String) → List Link → String
encode_base64 base64 all = base64 (url_lines all)
