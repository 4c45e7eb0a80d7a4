-- ===== src/Xray/Rules.antt =====
-- The routing rules of the generated configuration (internal/xray/generate.go), in their order.
use zeroone.Prelude.{◌++◌, String, Bool, List, [], ◌∷◌, if◌then◌else◌}
use zeroone.Prelude.Json.{str, array, Object, fields, texts}
use zeroone.Stack.{Config, RoutingConfig}
use zeroone.Stack.Effective.{or_text, enabled_domains, relay_outbound_tag, spoof_outbound_tag}
use zeroone.Xray.Outbounds.{no_items}

unfoldable pub list_rule : String → List String → String → Object
list_rule key values tag =
    fields (("type", str "field") ∷ (key, array (texts values)) ∷ ("outboundTag", str tag) ∷ [])

-- `if len(values) > 0 { r = append(r, …) }`
unfoldable pub rule_for : String → List String → String → List Object
rule_for key values tag = if no_items values then [] else list_rule key values tag ∷ []

unfoldable pub udp_rule : Bool → List Object
udp_rule blocked =
    if blocked
    then fields (
        ("type", str "field")
        ∷ ("network", str "udp")
        ∷ ("port", str "443")
        ∷ ("outboundTag", str "block")
        ∷ [])
      ∷ []
    else []

-- The rules of a plugin: whole inbounds, then domains.
unfoldable pub plugin_rules : Bool → String → List String → List String → List Object
plugin_rules enabled tag inbound_tags domains =
    if enabled then rule_for "inboundTag" inbound_tags tag ++ rule_for "domain" domains tag else []

unfoldable pub ai_tag : Config → String
ai_tag c = or_text c.xray.routing.ai_outbound_tag c.xray.outbounds.proxy.tag

unfoldable pub list_rules : RoutingConfig → String → List Object
list_rules r ai =
    rule_for "domain" r.direct_domains "direct"
    ++ (rule_for "ip" r.direct_ips "direct"
        ++ (rule_for "domain" r.block_domains "block"
            ++ (rule_for "ip" r.block_ips "block"
                ++ (rule_for "domain" r.manual_block_domains "block"
                    ++ (rule_for "domain" r.ai_update_domains ai
                        ++ rule_for "domain" r.ai_domains ai)))))

unfoldable pub routing_rules : Config → List Object
routing_rules c =
    list_rule "inboundTag" ("xray-api" ∷ []) "api"
    ∷ (udp_rule c.xray.routing.block_udp_443
        ++ (list_rules c.xray.routing (ai_tag c)
            ++ (plugin_rules c.relay.enabled (relay_outbound_tag c.relay) c.relay.inbound_tags
                  (enabled_domains c.relay.sites)
                ++ plugin_rules c.sni_spoof.enabled (spoof_outbound_tag c.sni_spoof)
                    c.sni_spoof.inbound_tags (enabled_domains c.sni_spoof.sites))))
