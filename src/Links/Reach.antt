-- ===== src/Links/Reach.antt =====
-- Where a user's own link leads (internal/links/links.go, internal/xray/generate.go).
use zeroone.Prelude.{
  ◌≡◌, refl, ◌∙◌, ◌++◌, inl, inr, String, Bool, true, false, not, ◌&&◌, List, [], ◌∷◌, str_eq_refl,
  Bool-cases, if◌then◌else◌, arith,
}
use zeroone.Prelude.Int.{pos, eqb_ℤ}
use zeroone.Prelude.Json.{Object, get, objects}
use zeroone.Stack.{Config, User}
use zeroone.Stack.Rules.{contains}
use zeroone.Xray.Inbounds.{
  client, is_limited, unlimited_clients, limited_inbound, limited_inbounds, socks_inbounds,
  public_inbound, vless_ws_inbound, inbounds,
}
use zeroone.Xray.Clients.{as_object, as_text, email_of, clients_in}
use zeroone.Xray.Ports.{port_of}
use zeroone.Links.Names.{Link}
use zeroone.Links.Make.{
  Texts, named, vless_url, vless_values, vless_link, limited_link, direct_link, further_links,
  vless, no_extra,
}

-- A list has the element.
pub data Among {ℓ} {A : Type ℓ} (x : A) : List A → Type ℓ where
  here : {xs : List A} → Among x (x ∷ xs)
  there : {y : A} {xs : List A} → Among x xs → Among x (y ∷ xs)

-- The WebSocket path of an inbound.
unfoldable pub path_of : Object → String
path_of o = as_text (get "path" (as_object (get "wsSettings" (as_object (get "streamSettings" o)))))

-- The address of a user's link to the inbound.
unfoldable pub url_to : Texts → Config → User → String → Object → String
url_to t c u name o =
    vless_url t name u.uuid c.server.public_ip (port_of o)
      (vless_values t c.server.public_ip "ws" (path_of o) "" false no_extra)

Among-if {ℓ} :
    {A : Type ℓ}
    → (b : Bool) (x y : A) (xs : List A) → Among x xs
    → Among x (if b then y ∷ xs else xs)
Among-if true x y xs h = there h
Among-if false x y xs h = h

Among-append {ℓ} : {A : Type ℓ} → (x : A) (xs ys : List A) → Among x ys → Among x (xs ++ ys)
Among-append x [] ys h = h
Among-append x (y ∷ xs) ys h = there (Among-append x xs ys h)

append-Among {ℓ} :
    {A : Type ℓ} → (x : A) {xs : List A} (ys : List A) → Among x xs → Among x (xs ++ ys)
append-Among x ys here = here
append-Among x ys (there h) = there (append-Among x ys h)

if-here {ℓ} :
    {A : Type ℓ} → (b : Bool) (x : A) (xs : List A) → b ≡ true → Among x (if b then x ∷ xs else xs)
if-here true x xs h = here
if-here false x xs h = cc

both-true : {a b : Bool} → a ≡ true → b ≡ true → (a && b) ≡ true
both-true h k = rw (h, k)

limited-Among :
    (u : User) {us : List User}
    → Among u us
    → (u.enabled && is_limited u) ≡ true
    → Among (limited_inbound u) (limited_inbounds us)
unfolding limited_inbounds
limited-Among u (here {xs}) h =
    if-here (u.enabled && is_limited u) (limited_inbound u) (limited_inbounds xs) h
limited-Among u (there {y} {xs} m) h =
    Among-if (y.enabled && is_limited y) (limited_inbound u) (limited_inbound y)
      (limited_inbounds xs) (limited-Among u m h)

client-head :
    (u : User) (enabled own : Bool) (xs : List Object)
    → enabled ≡ true
    → own ≡ false
    → contains u.email
        (email_of (objects (if not enabled then xs else if own then xs else client u ∷ xs)))
      ≡ true
unfolding email_of client contains
client-head u true false xs on shared = rw (str_eq_refl u.email)
client-head u true true xs on shared = cc
client-head u false own xs on shared = cc

client-tail :
    (email : String) (v : User) (enabled own : Bool) (xs : List Object)
    → contains email (email_of (objects xs)) ≡ true
    → contains email
        (email_of (objects (if not enabled then xs else if own then xs else client v ∷ xs)))
      ≡ true
unfolding email_of client contains
client-tail email v true false xs h = ground arith
client-tail email v true true xs h = h
client-tail email v false own xs h = h

client-Among :
    (u : User) {us : List User}
    → Among u us
    → u.enabled ≡ true
    → is_limited u ≡ false
    → contains u.email (email_of (objects (unlimited_clients us))) ≡ true
unfolding unlimited_clients
client-Among u (here {xs}) on shared =
    client-head u u.enabled (is_limited u) (unlimited_clients xs) on shared
client-Among u (there {y} {xs} m) on shared =
    client-tail u.email y y.enabled (is_limited y) (unlimited_clients xs)
      (client-Among u m on shared)

limited_inbound-reached :
    (t : Texts) (c : Config) (u : User)
    → ((limited_link t c u).url ≡ url_to t c u (named t ("Limited" ∷ [])) (limited_inbound u))
      × (contains u.email (clients_in (limited_inbound u)) ≡ true)
unfolding limited_link vless_link url_to path_of port_of limited_inbound clients_in email_of client
    contains
limited_inbound-reached t c u = (refl, rw (str_eq_refl u.email))

public_inbound-reached :
    (t : Texts) (c : Config) (u : User)
    → (direct_link t c u).url ≡ url_to t c u (named t ("Direct" ∷ "WS" ∷ [])) (public_inbound c)
unfolding direct_link vless_link url_to path_of port_of public_inbound vless_ws_inbound
public_inbound-reached t c u = refl

if-chain {ℓ} :
    {A : Type ℓ}
    → (enabled idle own : Bool) (x y z : A) → enabled ≡ true
    → (if not enabled && idle then x else if own then y else z) ≡ (if own then y else z)
if-chain true idle own x y z on = refl
if-chain false idle own x y z on = cc

vless-enabled :
    (t : Texts) (c : Config) (u : User)
    → u.enabled ≡ true
    → vless t c u
      ≡ (if is_limited u then limited_link t c u ∷ [] else direct_link t c u ∷ further_links t c u)
unfolding vless
vless-enabled t c u on =
    if-chain u.enabled (eqb_ℤ u.banned_until (pos 0)) (is_limited u) [] (limited_link t c u ∷ [])
      (direct_link t c u ∷ further_links t c u) on

if-true {ℓ} : {A : Type ℓ} → (b : Bool) (x y : A) → b ≡ true → (if b then x else y) ≡ x
if-true b x y h = rw h

if-false {ℓ} : {A : Type ℓ} → (b : Bool) (x y : A) → b ≡ false → (if b then x else y) ≡ y
if-false b x y h = rw h

public-clients :
    (c : Config) (u : User)
    → Among u c.xray.users
    → u.enabled ≡ true
    → is_limited u ≡ false
    → contains u.email (clients_in (public_inbound c)) ≡ true
unfolding clients_in public_inbound vless_ws_inbound
public-clients c u m on shared = client-Among u m on shared

-- The inbound of a user's first link, and the name of that link.
unfoldable pub first_target : Config → User → Object
first_target c u = if is_limited u then limited_inbound u else public_inbound c

unfoldable pub first_name : Texts → User → String
first_name t u = if is_limited u then named t ("Limited" ∷ []) else named t ("Direct" ∷ "WS" ∷ [])

-- What is known of the first link `l` to the inbound `o`.
abbrev pub Leads : Texts → Config → User → String → Object → Type 0
Leads t c u name o =
    (l : Link) × (rest : List Link) × (vless t c u ≡ l ∷ rest)
    × Among o (inbounds c)
    × (l.url ≡ url_to t c u name o)
    × (contains u.email (clients_in o) ≡ true)

limited-Leads :
    (t : Texts) (c : Config) (u : User)
    → Among u c.xray.users
    → u.enabled ≡ true
    → is_limited u ≡ true
    → Leads t c u (named t ("Limited" ∷ [])) (limited_inbound u)
unfolding inbounds
limited-Leads t c u m on own =
    let (to, listed) = limited_inbound-reached t c u in
    (
      limited_link t c u,
      [],
      vless-enabled t c u on ∙ if-true (is_limited u) _ _ own,
      there (
          Among-append _ (socks_inbounds c.xray.inbounds.public_socks) _
            (append-Among _ _ (limited-Among u m (both-true on own)))),
      to,
      listed,
    )

shared-Leads :
    (t : Texts) (c : Config) (u : User)
    → Among u c.xray.users
    → u.enabled ≡ true
    → is_limited u ≡ false
    → Leads t c u (named t ("Direct" ∷ "WS" ∷ [])) (public_inbound c)
unfolding inbounds
shared-Leads t c u m on shared = (
  direct_link t c u,
  further_links t c u,
  vless-enabled t c u on ∙ if-false (is_limited u) _ _ shared,
  here,
  public_inbound-reached t c u,
  public-clients c u m on shared,
)

pub vless-Leads :
    (t : Texts) (c : Config) (u : User)
    → Among u c.xray.users
    → u.enabled ≡ true
    → Leads t c u (first_name t u) (first_target c u)
unfolding first_name first_target
vless-Leads t c u m on = elim (Bool-cases (is_limited u)) [
  | inl own ↦ rw own (limited-Leads t c u m on own)
  | inr shared ↦ rw shared (shared-Leads t c u m on shared)
]
