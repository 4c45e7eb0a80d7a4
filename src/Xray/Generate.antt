-- ===== src/Xray/Generate.antt =====
-- `Generate` (internal/xray/generate.go).
use zeroone.Prelude.{String, true, List, [], ◌∷◌}
use zeroone.Prelude.Json.{Json, str, flag, array, object, empty, Object, fields, texts, objects}
use zeroone.Stack.{Config}
use zeroone.Xray.Inbounds.{inbounds}
use zeroone.Xray.Outbounds.{outbounds}
use zeroone.Xray.Rules.{routing_rules}

-- A host of `dns_hosts` and its addresses.
host_entries : List (String × List String) → List (String × Json)
host_entries [] = []
host_entries ((host, ips) ∷ hosts) = (host, array (texts ips)) ∷ host_entries hosts

abbrev policy : Object
policy = fields (
    (
      "levels",
      object (
          fields (
            (
              "0",
              object
                  (fields (("statsUserUplink", flag true) ∷ ("statsUserDownlink", flag true) ∷ [])),
            )
            ∷ [])),
    )
    ∷ (
      "system",
      object (
          fields (
            ("statsInboundUplink", flag true)
            ∷ ("statsInboundDownlink", flag true)
            ∷ ("statsOutboundUplink", flag true)
            ∷ ("statsOutboundDownlink", flag true)
            ∷ [])),
    )
    ∷ [])

unfoldable pub generate : Config → Object
unfolding host_entries
generate c = fields (
    ("log", object (fields (("loglevel", str c.xray.log_level) ∷ [])))
    ∷ (
      "dns",
      object (
          fields (
            ("hosts", object (fields (host_entries c.xray.dns_hosts)))
            ∷ ("queryStrategy", str "UseIPv4")
            ∷ ("servers", array (texts c.xray.dns_servers))
            ∷ [])),
    )
    ∷ (
      "api",
      object (fields (("services", array (texts ("StatsService" ∷ []))) ∷ ("tag", str "api") ∷ [])),
    )
    ∷ ("stats", object empty)
    ∷ ("policy", object policy)
    ∷ ("inbounds", array (objects (inbounds c)))
    ∷ ("outbounds", array (objects (outbounds c)))
    ∷ (
      "routing",
      object (
          fields (
            ("domainStrategy", str "IPIfNonMatch")
            ∷ ("rules", array (objects (routing_rules c)))
            ∷ [])),
    )
    ∷ [])
