-- ===== src/Xray/Routes.antt =====
-- Where the routing rules of the generated configuration lead (internal/xray/generate.go).
use zeroone.Prelude.{
  ◌≡◌, refl, ap, inl, inr, String, Bool, true, false, ◌&&◌, ◌||◌, Option, none, some, List, [], ◌∷◌,
  ◌++◌, map, arith, str_eq, str_eq_refl, Option-cases,
}
use zeroone.Prelude.Int.{ℤ}
use zeroone.Prelude.Result.{ok, >>=-eq-ok}
use zeroone.Prelude.Json.{Json, str, Object, get, put_some, get-put}
use zeroone.Stack.{
  Config, RelayConfig, RelaySite, RoutingConfig, Outbound, OutboundSet, SniSpoofConfig,
}
use zeroone.Stack.Text.{atoi}
use zeroone.Stack.Rules.{net_split_host_port, split_host_port, relay_listen_address}
use zeroone.Stack.Effective.{
  enabled_sites, enabled_domains, relay_listen, relay_outbound_tag, spoof_outbound_tag,
}
use zeroone.Stack.Validate.{validate, check_relay, listen_port}
use zeroone.Stack.Valid.Stages.{validate-Passed}
use zeroone.Stack.Valid.Apart.{listen_port-split, enabled_rules}
use zeroone.Xray.Outbounds.{
  outbounds, local_host, http_outbound, outbound_mux, unmuxed, vless_outbound, direct_outbound,
  block_outbound, no_items, parse_relay_listen, relay_outbound, spoof_outbound, listed,
}
use zeroone.Xray.Rules.{
  list_rule, rule_for, udp_rule, plugin_rules, ai_tag, list_rules, routing_rules,
}

abbrev text_of : Option Json → String
text_of (some (str s)) = s
text_of _ = ""

-- The tag of an outbound.
unfoldable pub tag_of : Object → String
tag_of o = text_of (get "tag" o)

-- The outbound that a rule leads to.
unfoldable pub target_of : Object → String
target_of o = text_of (get "outboundTag" o)

abbrev pub is_member : String → List String → Bool
is_member s [] = false
is_member s (t ∷ ts) = str_eq s t || is_member s ts

-- Every rule leads to one of the tags.
abbrev pub all_lead : List String → List Object → Bool
all_lead tags [] = true
all_lead tags (r ∷ rs) = is_member (target_of r) tags && all_lead tags rs

-- The tags that a rule may name: the API's, and those of the generated outbounds.
unfoldable pub tags : Config → List String
tags c = "api" ∷ map tag_of (outbounds c)

all_lead-append :
    (ts : List String) (xs ys : List Object)
    → all_lead ts xs ≡ true
    → all_lead ts ys ≡ true
    → all_lead ts (xs ++ ys) ≡ true
all_lead-append ts [] ys h k = k
all_lead-append ts (x ∷ xs) ys h k = ground (arith, all_lead-append ts xs ys)

rule_for-leads :
    (ts : List String) (key : String) (values : List String) (tag : String)
    → str_eq key "outboundTag" ≡ false
    → is_member tag ts ≡ true
    → all_lead ts (rule_for key values tag) ≡ true
unfolding rule_for list_rule target_of
rule_for-leads ts key [] tag k h = refl
rule_for-leads ts key (v ∷ vs) tag k h = rw (k, h)

is_member-append :
    (s : String) (xs ys : List Object)
    → is_member s (map tag_of (xs ++ ys))
      ≡ (is_member s (map tag_of xs) || is_member s (map tag_of ys))
is_member-append s [] ys = refl
is_member-append s (x ∷ xs) ys = ground (arith, is_member-append s xs ys)

get-put_some : (v : Option Json) (o : Object) → get "tag" (put_some "mux" v o) ≡ get "tag" o
get-put_some none o = refl
get-put_some (some v) o = get-put "tag" "mux" v o

tag_of-vless_outbound : (o : Outbound) → tag_of (vless_outbound o) ≡ o.tag
unfolding tag_of vless_outbound
tag_of-vless_outbound o = ap text_of (get-put_some (outbound_mux o) (unmuxed o))

and_false : (b : Bool) → (b && false) ≡ false
and_false b = ground arith

plugin_rules-lead :
    (ts : List String) (enabled : Bool) (tag : String) (inbounds domains : List String)
    → (enabled ≡ true → (no_items domains && no_items inbounds) ≡ false → is_member tag ts ≡ true)
    → all_lead ts (plugin_rules enabled tag inbounds domains) ≡ true
unfolding plugin_rules rule_for
plugin_rules-lead ts false tag is ds h = refl
plugin_rules-lead ts true tag [] [] h = refl
plugin_rules-lead ts true tag [] (d ∷ ds) h =
    rule_for-leads ts "domain" (d ∷ ds) tag refl (h refl refl)
plugin_rules-lead ts true tag (i ∷ is) ds h =
    let found = h refl (and_false (no_items ds)) in
    all_lead-append ts (rule_for "inboundTag" (i ∷ is) tag) (rule_for "domain" ds tag)
      (rule_for-leads ts "inboundTag" (i ∷ is) tag refl found)
      (rule_for-leads ts "domain" ds tag refl found)

no_items-map : (ss : List RelaySite) → no_items (map (λ s. s.domain) ss) ≡ no_items ss
no_items-map [] = refl
no_items-map (s ∷ ss) = refl

no_items-enabled_domains :
    (ss : List RelaySite) → no_items (enabled_domains ss) ≡ no_items (enabled_sites ss)
unfolding enabled_domains
no_items-enabled_domains ss = no_items-map (enabled_sites ss)

parse_relay_listen-some :
    (listen : String) {host : String} {p : ℤ}
    → split_host_port listen ≡ some (host, p)
    → (there : String × ℤ) × (parse_relay_listen listen ≡ some there)
unfolding split_host_port parse_relay_listen
parse_relay_listen-some listen h = elim (Option-cases (net_split_host_port listen)) [
  | inl e ↦ cc (rw (e, split_host_port) at h)
  | inr ((host, port), e) ↦ elim (Option-cases (atoi port)) [
    | inl f ↦ cc (rw (e, f, split_host_port) at h)
    | inr (n, f) ↦ ((local_host host, n), rw (e, f, parse_relay_listen))
  ]
]

check_relay-listens :
    (r : RelayConfig) (o : OutboundSet)
    → check_relay r o ≡ ok tt
    → r.enabled ≡ true
    → (there : String × ℤ) × (parse_relay_listen (relay_listen r) ≡ some there)
unfolding check_relay
check_relay-listens r o h on =
    let (p, listens, _) =
      >>=-eq-ok (listen_port relay_listen_address (relay_listen r)) _
        (enabled_rules r.enabled _ on h) in
    let (host, split) = listen_port-split relay_listen_address (relay_listen r) listens in
    parse_relay_listen-some (relay_listen r) split

relay_outbound-some :
    (r : RelayConfig) (o : OutboundSet)
    → check_relay r o ≡ ok tt
    → r.enabled ≡ true
    → (no_items (enabled_domains r.sites) && no_items r.inbound_tags) ≡ false
    → (out : Object) × (relay_outbound r ≡ some out) × (tag_of out ≡ relay_outbound_tag r)
unfolding relay_outbound tag_of
relay_outbound-some r o h on used =
    let (there, parsed) = check_relay-listens r o h on in
    let used' = rw (no_items-enabled_domains r.sites) at used in
    (http_outbound (relay_outbound_tag r) there, simp (on, used', parsed, relay_outbound), refl)

is_member-listed :
    {tag : String} {o : Option Object} {out : Object}
    → o ≡ some out
    → tag_of out ≡ tag
    → is_member tag (map tag_of (listed o)) ≡ true
is_member-listed {tag} e t = rw (e, t, str_eq_refl tag)

-- The tags of the outbounds that are always there.
built_in : (c : Config) (tag : String) → Bool
built_in c tag =
    str_eq tag "api"
    || str_eq tag c.xray.outbounds.proxy.tag
    || str_eq tag c.xray.outbounds.fallback.tag
    || str_eq tag "direct"
    || str_eq tag "block"

tags-member :
    (c : Config) (tag : String)
    → is_member tag (tags c) ≡ (
        built_in c tag
        || is_member tag (map tag_of (listed (relay_outbound c.relay)))
        || is_member tag (map tag_of (listed (spoof_outbound c.sni_spoof))))
unfolding tags outbounds built_in tag_of direct_outbound block_outbound
tags-member c tag = ground (
  arith,
  is_member-append tag (listed (relay_outbound c.relay)) (listed (spoof_outbound c.sni_spoof)),
  tag_of-vless_outbound c.xray.outbounds.proxy,
  tag_of-vless_outbound c.xray.outbounds.fallback,
)

always-leads : (c : Config) (tag : String) → built_in c tag ≡ true → is_member tag (tags c) ≡ true
always-leads c tag h = ground (arith, tags-member c tag)

relay-leads :
    (c : Config)
    → check_relay c.relay c.xray.outbounds ≡ ok tt
    → all_lead (tags c) (
        plugin_rules c.relay.enabled
          (relay_outbound_tag c.relay)
          c.relay.inbound_tags
          (enabled_domains c.relay.sites))
      ≡ true
relay-leads c h =
    plugin_rules-lead (tags c) c.relay.enabled (relay_outbound_tag c.relay) c.relay.inbound_tags
      (enabled_domains c.relay.sites)
      (λ on used.
        let (out, made, tagged) = relay_outbound-some c.relay c.xray.outbounds h on used in
        ground (arith, tags-member c (relay_outbound_tag c.relay), is_member-listed made tagged))

spoof_outbound-tag :
    (s : SniSpoofConfig)
    → s.enabled ≡ true
    → (no_items (enabled_domains s.sites) && no_items s.inbound_tags) ≡ false
    → is_member (spoof_outbound_tag s) (map tag_of (listed (spoof_outbound s))) ≡ true
unfolding spoof_outbound tag_of
spoof_outbound-tag s on used =
    let used' = rw (no_items-enabled_domains s.sites) at used in
    simp (on, used', spoof_outbound, str_eq_refl (spoof_outbound_tag s))

spoof-leads :
    (c : Config)
    → all_lead (tags c) (
        plugin_rules c.sni_spoof.enabled
          (spoof_outbound_tag c.sni_spoof)
          c.sni_spoof.inbound_tags
          (enabled_domains c.sni_spoof.sites))
      ≡ true
spoof-leads c =
    plugin_rules-lead (tags c) c.sni_spoof.enabled (spoof_outbound_tag c.sni_spoof)
      c.sni_spoof.inbound_tags (enabled_domains c.sni_spoof.sites)
      (λ on used. ground (
        arith,
        tags-member c (spoof_outbound_tag c.sni_spoof),
        spoof_outbound-tag c.sni_spoof on used,
      ))

list_rules-lead :
    (ts : List String) (r : RoutingConfig) (ai : String)
    → is_member "direct" ts ≡ true
    → is_member "block" ts ≡ true
    → is_member ai ts ≡ true
    → all_lead ts (list_rules r ai) ≡ true
unfolding list_rules
list_rules-lead ts r ai direct block there =
    all_lead-append ts _ _ (rule_for-leads ts "domain" r.direct_domains "direct" refl direct) (
      all_lead-append ts _ _ (rule_for-leads ts "ip" r.direct_ips "direct" refl direct) (
        all_lead-append ts _ _ (rule_for-leads ts "domain" r.block_domains "block" refl block) (
          all_lead-append ts _ _ (rule_for-leads ts "ip" r.block_ips "block" refl block) (
            all_lead-append ts _ _
              (rule_for-leads ts "domain" r.manual_block_domains "block" refl block)
              (all_lead-append ts _ _ (rule_for-leads ts "domain" r.ai_update_domains ai refl there)
                (rule_for-leads ts "domain" r.ai_domains ai refl there))))))

udp_rule-leads :
    (ts : List String) (b : Bool) → is_member "block" ts ≡ true → all_lead ts (udp_rule b) ≡ true
unfolding udp_rule target_of
udp_rule-leads ts true h = rw h
udp_rule-leads ts false h = refl

abbrev api_rule : Object
api_rule = list_rule "inboundTag" ("xray-api" ∷ []) "api"

api-leads : (c : Config) → all_lead (tags c) (api_rule ∷ []) ≡ true
unfolding list_rule target_of tags
api-leads c = refl

-- No rule leads nowhere: in a configuration that passes `Validate` and whose tag for the AI domains,
-- the proxy's where it is empty, is the API's or that of a generated outbound, every generated
-- routing rule leads to the API or to a generated outbound. So the relay's and the sni_spoof's
-- rules come only with their outbounds.
pub routing_rules-lead :
    (is_cidr : String → Bool) (c : Config)
    → validate is_cidr c ≡ ok tt
    → is_member (ai_tag c) (tags c) ≡ true
    → all_lead (tags c) (routing_rules c) ≡ true
unfolding routing_rules built_in
routing_rules-lead is_cidr c valid ai =
    let passed = validate-Passed is_cidr c valid in
    let direct = always-leads c "direct" (ground arith) in
    let block = always-leads c "block" (ground arith) in
    all_lead-append (tags c) (api_rule ∷ []) _ (api-leads c) (
      all_lead-append (tags c) _ _ (udp_rule-leads (tags c) c.xray.routing.block_udp_443 block) (
        all_lead-append (tags c) _ _
          (list_rules-lead (tags c) c.xray.routing (ai_tag c) direct block ai)
          (all_lead-append (tags c) _ _ (relay-leads c passed.relay) (spoof-leads c))))
