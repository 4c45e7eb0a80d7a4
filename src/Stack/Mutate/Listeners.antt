-- ===== src/Stack/Mutate/Listeners.antt =====
-- The operations on SOCKS listeners and client endpoints (internal/stack/mutate.go). `fresh` is what
-- `randomToken(9)` draws, `to_lower` is `strings.ToLower`.
use zeroone.Prelude.{
  String, Bool, ◌&&◌, ◌||◌, Option, none, some, List, [], ◌∷◌, ◌++◌, str_eq, is_empty, length, ◌==◌,
  if◌then◌else◌,
}
use zeroone.Prelude.Int.{pos, eqb_ℤ, leb_ℤ}
use zeroone.Stack.Defs.{Config, SocksInbound, ClientEndpoint}
use zeroone.Stack.Effective.{or_text, vless_xhttp_mode}
use zeroone.Stack.Text.{trim_space}
use zeroone.Stack.Mutate.Outcome.{
  Outcome, required, duplicate_socks, not_found, refuse, checked, with_socks, with_endpoints,
  any_of, update_first, split_first, delete_where,
}

abbrev clashes : SocksInbound → SocksInbound → Bool
clashes s t = str_eq t.name s.name || eqb_ℤ t.port s.port || str_eq t.username s.username

abbrev has_login : String → SocksInbound → Bool
has_login name s = str_eq s.username name

module _ (is_cidr : String → Bool) (c : Config) where
  unfoldable pub add_socks : String → SocksInbound → Outcome
  add_socks fresh s =
      if is_empty s.name || is_empty s.username
      then refuse c required
      else if any_of (clashes s) c.xray.inbounds.public_socks
      then refuse c duplicate_socks
      else checked is_cidr (
          with_socks c
            (c.xray.inbounds.public_socks ++ record s { password = or_text s.password fresh } ∷ []))

  unfoldable pub update_socks : String → SocksInbound → Outcome
  update_socks old_name s =
      if is_empty old_name || is_empty s.name || is_empty s.username || leb_ℤ s.port (pos 0)
      then refuse c required
      else elim (split_first (has_login old_name) c.xray.inbounds.public_socks) [
        | none ↦ refuse c (not_found old_name)
        | some (before, old, after) ↦
            if any_of (clashes s) before || any_of (clashes s) after
            then refuse c duplicate_socks
            else checked is_cidr (
                with_socks c
                  (before ++ record s { password = or_text s.password old.password } ∷ after))
      ]

  unfoldable pub delete_socks : String → Outcome
  delete_socks name =
      let left = delete_where (has_login name) c.xray.inbounds.public_socks in
      if length left == length c.xray.inbounds.public_socks
      then refuse (with_socks c left) (not_found name)
      else checked is_cidr (with_socks c left)

  unfoldable pub delete_client_endpoint : String → Outcome
  delete_client_endpoint name =
      let left =
        delete_where (λ (ep : ClientEndpoint). str_eq ep.name (trim_space name))
          c.server.client_endpoints in
      if length left == length c.server.client_endpoints
      then refuse (with_endpoints c left) (not_found (trim_space name))
      else checked is_cidr (with_endpoints c left)

-- The texts of an endpoint, cleaned.
clean_endpoint : (String → String) → ClientEndpoint → ClientEndpoint
clean_endpoint to_lower ep = record ep {
  name = trim_space ep.name;
  host = trim_space (to_lower ep.host);
  network = trim_space (to_lower ep.network);
  path = trim_space ep.path;
  mode = trim_space (to_lower ep.mode);
}

-- The defaults, in the source's order: the path's reads the network's, the mode's both.
default_port : ClientEndpoint → ClientEndpoint
default_port ep = record ep {
  port = if eqb_ℤ ep.port (pos 0) then if ep.tls then pos 443 else pos 80 else ep.port;
}

default_network : ClientEndpoint → ClientEndpoint
default_network ep = record ep { network = or_text ep.network "ws" }

default_path : ClientEndpoint → ClientEndpoint
default_path ep = record ep {
  path = or_text ep.path (if str_eq ep.network "xhttp" then "/xhttp" else "/vless");
}

default_mode : Config → ClientEndpoint → ClientEndpoint
default_mode c ep = record ep {
  mode =
      if str_eq ep.network "xhttp" && is_empty ep.mode
      then vless_xhttp_mode c.xray.inbounds
      else ep.mode;
}

-- The endpoint takes the place of the first of its name, or the end.
place_endpoint :
    ClientEndpoint → List ClientEndpoint → Option (List ClientEndpoint) → List ClientEndpoint
place_endpoint ep eps none = eps ++ ep ∷ []
place_endpoint ep eps (some changed) = changed

module _ (is_cidr : String → Bool) (to_lower : String → String) (c : Config) where
  store_endpoint : ClientEndpoint → Outcome
  unfolding place_endpoint
  store_endpoint ep = checked is_cidr (
      with_endpoints c (
        place_endpoint ep c.server.client_endpoints (
          update_first (λ (old : ClientEndpoint). str_eq old.name ep.name) (λ old. ep)
            c.server.client_endpoints)))

  unfoldable pub upsert_client_endpoint : ClientEndpoint → Outcome
  unfolding clean_endpoint default_port default_network default_path default_mode store_endpoint
  upsert_client_endpoint ep =
      let clean = clean_endpoint to_lower ep in
      if is_empty clean.name || is_empty clean.host
      then refuse c required
      else store_endpoint (default_mode c (default_path (default_network (default_port clean))))
