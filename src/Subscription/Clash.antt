-- ===== src/Subscription/Clash.antt =====
-- The format of Clash, and the choice of the format (internal/subscription/encode.go). `quote` stands for
-- `strconv.Quote`, and `json` for `json.MarshalIndent`.
use Prim.Native.Char.{code}
use zeroone.Prelude.{
  String, Bool, false, ◌||◌, Option, List, [], ◌∷◌, ◌++◌, ◌==◌, str_eq, is_empty, if◌then◌else◌,
}
use zeroone.Prelude.Json.{Object}
use zeroone.Stack.Text.{begins_with, has_char}
use zeroone.Stack.Text.Decimal.{show_ℤ}
use zeroone.Links.Names.{Link, concat}
use zeroone.Subscription.Encode.{
  Format, plain, clash, sing_box, content_type, Url, Parsed, readable, names_of, encode_sing_box,
  encode_base64,
}

has_any : String → String → Bool
has_any String.[] s = false
has_any (String.◌∷◌ c cs) s = has_char (code c) s || has_any cs s

ends_with_space : String → Bool
ends_with_space String.[] = false
ends_with_space (String.◌∷◌ c String.[]) = code c == b' '
ends_with_space (String.◌∷◌ c (String.◌∷◌ d s)) = ends_with_space (String.◌∷◌ d s)

-- `clashNetwork`
unfoldable pub clash_network : String → String
clash_network t =
    if str_eq t "ws" then "ws" else if str_eq t "xhttp" || str_eq t "splithttp" then "h2" else "tcp"

-- What Go's libraries do.
pub record Encoders : Type 0 where
  pub parse_url : String → Option Url
  pub quote : String → String
  pub base64 : String → String
  pub json : Object → String

module _ (e : Encoders) where
  -- `yamlString`
  unfoldable pub yaml_string : String → String
  unfolding has_any ends_with_space
  yaml_string s =
      if is_empty s
      then "\"\""
      else if has_any ":#{}[]&*!|>'\"%@`,?\n\t" s
          || begins_with b'-' s
          || begins_with b' ' s
          || ends_with_space s
      then e.quote s
      else s

  tls_lines : Parsed → List String
  tls_lines p =
      if p.tls
      then "    tls: true\n"
        ∷ (if is_empty p.sni
            then ""
            else concat ("    servername: " ∷ yaml_string p.sni ∷ "\n" ∷ []))
        ∷ "    client-fingerprint: chrome\n"
        ∷ []
      else []

  transport_lines : Parsed → List String
  transport_lines p =
      if str_eq p.transport "ws"
      then "    ws-opts:\n      path: "
        ∷ yaml_string p.path
        ∷ "\n"
        ∷ (if is_empty p.host_header
            then ""
            else concat ("      headers:\n        Host: " ∷ yaml_string p.host_header ∷ "\n" ∷ []))
        ∷ []
      else if str_eq p.transport "xhttp" || str_eq p.transport "splithttp"
      then "    h2-opts:\n      path: "
        ∷ yaml_string p.path
        ∷ "\n"
        ∷ (if is_empty p.host_header
            then ""
            else concat ("      host: [" ∷ yaml_string p.host_header ∷ "]\n" ∷ []))
        ∷ []
      else []

  -- The round of the loop for a link that can be read.
  unfoldable pub proxy_entry : String → Parsed → String
  unfolding tls_lines transport_lines
  proxy_entry name p = concat (
      "  - name: "
      ∷ yaml_string name
      ∷ "\n    type: vless\n    server: "
      ∷ yaml_string p.host
      ∷ "\n    port: "
      ∷ show_ℤ p.port
      ∷ "\n    uuid: "
      ∷ p.uuid
      ∷ "\n    network: "
      ∷ clash_network p.transport
      ∷ "\n    udp: true\n"
      ∷ (tls_lines p ++ transport_lines p))

  proxy_entries : List (String × Parsed) → List String
  unfolding proxy_entry
  proxy_entries [] = []
  proxy_entries ((name, p) ∷ ps) = proxy_entry name p ∷ proxy_entries ps

  name_lines : List String → List String
  name_lines [] = []
  name_lines (n ∷ ns) = concat ("      - " ∷ yaml_string n ∷ "\n" ∷ []) ∷ name_lines ns

  -- `EncodeClash`
  unfoldable pub encode_clash : List Link → String
  unfolding proxy_entries name_lines
  encode_clash all =
      let ps = readable e.parse_url all in
      concat (
        "proxies:\n"
        ∷ (proxy_entries ps
            ++ ("\nproxy-groups:\n  - name: ZeroOne\n    type: select\n    proxies:\n"
                ∷ (name_lines (names_of ps) ++ ("\nrules:\n  - MATCH,ZeroOne\n" ∷ [])))))

  -- `Encode`
  unfoldable pub encode : Format → List Link → String × String
  encode clash all = (encode_clash all, content_type clash)
  encode sing_box all = (e.json (encode_sing_box e.parse_url all), content_type sing_box)
  encode plain all = (encode_base64 e.base64 all, content_type plain)
