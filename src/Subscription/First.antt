-- ===== src/Subscription/First.antt =====
-- Where a subscription's first outbound leads (internal/subscription/encode.go, server.go,
-- internal/links/links.go, internal/xray/generate.go).
use zeroone.Prelude.{
  ◌≡◌, refl, ap, ◌∙◌, inl, inr, ◌<◌, ◌≤◌, ◌^◌, String, true, false, not, Option, none, some, List,
  ◌∷◌, ◌++◌, str_eq, str_eq_iff, is_empty, if◌then◌else◌, Bool-cases,
}
use zeroone.Prelude.Int.{ℤ, pos_part, neg_part}
use zeroone.Prelude.Assoc.{get_or, insert}
use zeroone.Prelude.Json.{str, number, Object, get}
use zeroone.Stack.{Config, User}
use zeroone.Stack.Rules.{contains}
use zeroone.Stack.Text.{atoi}
use zeroone.Stack.Text.Decimal.{show_ℤ, atoi-show_ℤ}
use zeroone.Xray.Inbounds.{inbounds}
use zeroone.Xray.Clients.{as_object, as_text, clients_in}
use zeroone.Xray.Ports.{port_of}
use zeroone.Links.Names.{Link}
use zeroone.Links.Make.{Texts, vless_values, vless, no_extra}
use zeroone.Links.Reach.{Among, path_of, url_to, first_target, first_name, vless-Leads}
use zeroone.Subscription.Encode.{
  Url, parsed_of, port_number, parse_vless, readable, link_outbounds, names_of, closing_outbounds,
  outbounds_of, link_outbound, sing_box_outbounds,
}

-- The parameters that a link to an inbound's WebSocket path has.
abbrev values_to : Texts → Config → Object → List (String × String)
values_to t c o = vless_values t c.server.public_ip "ws" (path_of o) "" false no_extra

-- The parts of the address that `url_to` puts together.
abbrev pub url_parts : Texts → Config → User → Object → Url
url_parts t c u o = record {
  scheme = "vless";
  username = u.uuid;
  hostname = c.server.public_ip;
  port = show_ℤ (port_of o);
  query = values_to t c o;
}

-- The WebSocket path of an outbound.
abbrev pub outbound_path : Object → String
outbound_path ob = as_text (get "path" (as_object (get "transport" ob)))

not-empty-atoi : (s : String) (n : ℤ) → atoi s ≡ some n → is_empty s ≡ false
unfolding atoi
not-empty-atoi s n e = elim (Bool-cases (is_empty s)) [
  | inl empty ↦ let nothing : atoi s ≡ none = ap atoi ((str_eq_iff s "").0 empty) in cc
  | inr full ↦ full
]

port_number-show_ℤ :
    (n : ℤ) → pos_part n < 2 ^ 63 → neg_part n ≤ 2 ^ 63 → port_number (show_ℤ n) ≡ n
unfolding port_number
port_number-show_ℤ n h k =
    let read = atoi-show_ℤ n h k in rw (not-empty-atoi (show_ℤ n) n read, read, port_number) refl

if-no-reject :
    (u : Url)
    → u.scheme ≡ "vless"
    → (if not (str_eq u.scheme "vless") then none else some (parsed_of u)) ≡ some (parsed_of u)
if-no-reject u e = rw ((str_eq_iff u.scheme "vless").1 e) refl

link_outbound-to :
    (t : Texts) (c : Config) (u : User) (o : Object) (name : String)
    → pos_part (port_of o) < 2 ^ 63
    → neg_part (port_of o) ≤ 2 ^ 63
    → let ob = link_outbound name (parsed_of (url_parts t c u o)) in
      (get "uuid" ob ≡ some (str u.uuid))
      × (get "server" ob ≡ some (str c.server.public_ip))
      × (get "server_port" ob ≡ some (number (port_of o)))
      × (outbound_path ob ≡ path_of o)
unfolding link_outbound parsed_of vless_values insert get_or
link_outbound-to t c u o name low high =
    (refl, refl, ap (λ n. some (number n)) (port_number-show_ℤ (port_of o) low high), refl)

module _ (parse_url : String → Option Url) where
  readable-first :
      (l : Link) (ls : List Link) (u : Url)
      → parse_url l.url ≡ some u
      → u.scheme ≡ "vless"
      → readable parse_url (l ∷ ls) ≡ (l.name, parsed_of u) ∷ readable parse_url ls
  unfolding readable parse_vless parsed_of
  readable-first l ls u e v =
      let read : parse_vless parse_url l.url ≡ some (parsed_of u) =
        rw (e, parse_vless) (if-no-reject u v) in
      rw (read, readable) refl

  -- A subscription in sing-box's format leads its user to an inbound: where the user is enabled and one
  -- of the configuration's, and `url.Parse` reads the address of the user's first link as its parts,
  -- `EncodeSingBox` has a first outbound with the user's identifier, and its server, port and
  -- WebSocket path are the configured address and the port and the path of an inbound that `Generate` makes
  -- and that has the user's e-mail address among its clients.
  pub sing_box_outbounds-first :
      (t : Texts) (c : Config) (u : User)
      → Among u c.xray.users
      → u.enabled ≡ true
      → pos_part (port_of (first_target c u)) < 2 ^ 63
      → neg_part (port_of (first_target c u)) ≤ 2 ^ 63
      → parse_url (url_to t c u (first_name t u) (first_target c u))
        ≡ some (url_parts t c u (first_target c u))
      → (ob : Object) × (more : List Object) × (o : Object) × (sing_box_outbounds parse_url
            (vless t c u)
          ≡ ob ∷ more)
        × Among o (inbounds c)
        × (contains u.email (clients_in o) ≡ true)
        × (get "uuid" ob ≡ some (str u.uuid))
        × (get "server" ob ≡ some (str c.server.public_ip))
        × (get "server_port" ob ≡ some (number (port_of o)))
        × (outbound_path ob ≡ path_of o)
  unfolding sing_box_outbounds outbounds_of
  sing_box_outbounds-first t c u m on low high reads =
      let o = first_target c u in
      let (l, rest, whole, among, to, listed) = vless-Leads t c u m on in
      let read = readable-first l rest (url_parts t c u o) (ap parse_url to ∙ reads) refl in
      let (uuid, server, port, path) = link_outbound-to t c u o l.name low high in
      (
        link_outbound l.name (parsed_of (url_parts t c u o)),
        link_outbounds (readable parse_url rest)
            ++ closing_outbounds (l.name ∷ names_of (readable parse_url rest)),
        o,
        ap (sing_box_outbounds parse_url) whole ∙ ap outbounds_of read,
        among,
        listed,
        uuid,
        server,
        port,
        path,
      )
