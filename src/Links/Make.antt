-- ===== src/Links/Make.antt =====
-- The links themselves (internal/links/links.go). `escape` stands for `url.QueryEscape`, `encode` for
-- the encoding of `url.Values`, and `marshal` for `json.Marshal`, none where it fails.
use Prim.Native.Char.{Char}
use zeroone.Prelude.{
  ◌++◌, String, Bool, true, false, not, ◌&&◌, Option, none, some, List, [], ◌∷◌, str_eq, is_empty,
  append_text, if◌then◌else◌,
}
use zeroone.Prelude.Int.{ℤ, pos, ltb_ℤ, eqb_ℤ}
use zeroone.Prelude.Assoc.{insert}
use zeroone.Prelude.Json.{Object}
use zeroone.Stack.{Config, User, ClientEndpoint, SocksInbound, XhttpClientExtra}
use zeroone.Stack.Text.Decimal.{show_ℤ}
use zeroone.Stack.Effective.{vless_xhttp_path, vless_xhttp_mode}
use zeroone.Xray.Inbounds.{is_limited, limited_path}
use zeroone.Links.Names.{Link, concat, no_object, link_name, extra_object}

abbrev pub Values : Type 0
Values = List (String × String)

abbrev set_if : Bool → String → String → Values → Values
set_if b k v vs = if b then insert k v vs else vs

abbrev pub no_extra : XhttpClientExtra
no_extra = record { x_padding_bytes = ""; no_sse_header = none; no_grpc_header = none; xmux = none }

-- What Go's libraries do with texts.
pub record Texts : Type 0 where
  pub escape : String → String
  pub encode : Values → String
  pub marshal : Object → Option String
  pub to_lower : String → String
  pub to_upper : String → String
  pub title : Char → Char

module _ (t : Texts) where
  abbrev pub named : List String → String
  named parts = link_name t.to_lower t.to_upper t.title parts

  or_nothing : Option String → String
  or_nothing none = ""
  or_nothing (some s) = s

  -- `encodeXHTTPExtra`
  unfoldable pub encode_extra : XhttpClientExtra → String
  unfolding or_nothing
  encode_extra e =
      if no_object (extra_object e) then "" else or_nothing (t.marshal (extra_object e))

  -- The address of a link, with its parameters.
  unfoldable pub vless_url : String → String → String → ℤ → Values → String
  vless_url name uuid host port values = concat (
      "vless://"
      ∷ uuid
      ∷ "@"
      ∷ host
      ∷ ":"
      ∷ show_ℤ port
      ∷ "?"
      ∷ t.encode values
      ∷ "#"
      ∷ t.escape name
      ∷ [])

  abbrev secured : Bool → String → Values → Values
  secured tls host vs =
      if tls
      then insert "host" host (insert "sni" host (insert "security" "tls" vs))
      else insert "security" "none" vs

  -- The parameters that `vlessLink` sets.
  unfoldable pub vless_values : String → String → String → String → Bool → XhttpClientExtra → Values
  vless_values host network path mode tls extra =
      let start = insert "type" network (insert "encryption" "none" []) in
      let routed = insert "path" path (secured tls host start) in
      let moded = set_if (str_eq network "xhttp" && not (is_empty mode)) "mode" mode routed in
      set_if (str_eq network "xhttp" && not (is_empty (encode_extra extra))) "extra"
        (encode_extra extra) moded

  unfoldable pub vless_link :
      String → String → String → ℤ → String → String → String → Bool → XhttpClientExtra → Link
  vless_link name uuid host port network path mode tls extra = record {
    name = name;
    url = vless_url name uuid host port (vless_values host network path mode tls extra);
  }

  unfoldable pub split_values : String → String → String → Bool → Values
  split_values host path mode tls =
      let start = insert "type" "splithttp" (insert "encryption" "none" []) in
      let secure =
        if tls
        then insert "sni" host (insert "security" "tls" start)
        else insert "security" "none" start in
      set_if (not (is_empty mode)) "mode" mode (insert "path" path (insert "host" host secure))

  unfoldable pub split_http_compat_link :
      String → String → String → ℤ → String → String → Bool → Link
  split_http_compat_link name uuid host port path mode tls = record {
    name = name;
    url = vless_url name uuid host port (split_values host path mode tls);
  }

  abbrev pub also : Bool → Link → List Link
  also true l = l ∷ []
  also false l = []

  endpoint_links : Config → User → ClientEndpoint → List Link
  endpoint_links c u ep =
      let mode =
        if str_eq ep.network "xhttp" && is_empty ep.mode
        then vless_xhttp_mode c.xray.inbounds
        else ep.mode in
      vless_link (named (ep.name ∷ [])) u.uuid ep.host ep.port ep.network ep.path mode ep.tls
        ep.extra
      ∷ also (str_eq ep.network "xhttp" && ep.link_compat) (
          split_http_compat_link (named (ep.name ∷ "SplitHTTP" ∷ [])) u.uuid ep.host ep.port ep.path
            mode ep.tls)

  -- The loop over the client endpoints.
  endpoints_links : Config → User → List ClientEndpoint → List Link
  unfolding endpoint_links
  endpoints_links c u [] = []
  endpoints_links c u (ep ∷ eps) =
      let rest = endpoints_links c u eps in
      if ep.enabled then endpoint_links c u ep ++ rest else rest

  xhttp_links : Config → User → List Link
  xhttp_links c u =
      let host = c.server.public_ip in
      let path = vless_xhttp_path c.xray.inbounds in
      let mode = vless_xhttp_mode c.xray.inbounds in
      vless_link (named ("Direct" ∷ "XHTTP" ∷ [])) u.uuid host (pos 80) "xhttp" path mode false
        no_extra
      ∷ also c.xray.inbounds.vless_xhttp_link_compat (
          split_http_compat_link (named ("Direct" ∷ "SplitHTTP" ∷ [])) u.uuid host (pos 80) path
            mode false)

  unfoldable pub limited_link : Config → User → Link
  limited_link c u =
      vless_link (named ("Limited" ∷ [])) u.uuid c.server.public_ip u.bandwidth_port "ws"
        (limited_path u) "" false no_extra

  unfoldable pub direct_link : Config → User → Link
  direct_link c u =
      vless_link (named ("Direct" ∷ "WS" ∷ [])) u.uuid c.server.public_ip
        c.xray.inbounds.vless_ws_port "ws" "/vless" "" false no_extra

  -- What follows the direct link.
  unfoldable pub further_links : Config → User → List Link
  unfolding xhttp_links endpoints_links
  further_links c u =
      (if ltb_ℤ (pos 0) c.xray.inbounds.vless_xhttp_port then xhttp_links c u else [])
      ++ endpoints_links c u c.server.client_endpoints

  -- `VLESS`
  unfoldable pub vless : Config → User → List Link
  vless c u =
      if not u.enabled && eqb_ℤ u.banned_until (pos 0)
      then []
      else if is_limited u
      then limited_link c u ∷ []
      else direct_link c u ∷ further_links c u

  -- `SOCKS`
  unfoldable pub socks : Config → SocksInbound → List Link
  socks c s =
      let host = c.server.public_ip in
      record {
        name = "SOCKS5 URI";
        url = concat (
            "socks5://"
            ∷ t.escape s.username
            ∷ ":"
            ∷ t.escape s.password
            ∷ "@"
            ∷ host
            ∷ ":"
            ∷ show_ℤ s.port
            ∷ "#"
            ∷ t.escape (append_text s.username "-socks")
            ∷ []);
      }
      ∷ record { name = "Host"; url = concat (host ∷ ":" ∷ show_ℤ s.port ∷ []) }
      ∷ record { name = "Username"; url = s.username }
      ∷ record { name = "Password"; url = s.password }
      ∷ []
