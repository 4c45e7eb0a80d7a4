-- ===== src/Tests/Xray.antt =====
-- Examples of the theorems on the generated Xray configuration.
use mathlib.Core.List.{Perm, map}
use zeroone.Prelude.{◌≡◌, refl, ◌++◌, ◌≤◌, true}
use zeroone.Prelude.Int.{pos}
use zeroone.Stack.Effective.{enabled_sites, spoof_outbound_tag, spoof_mark}
use zeroone.Xray.Inbounds.{public_inbound, xhttp_inbound, limited_inbounds}
use zeroone.Xray.Outbounds.{
  outbounds, vless_outbound, direct_outbound, block_outbound, relay_outbound, spoof_outbound,
}
use zeroone.Xray.Rules.{ai_tag, routing_rules}
use zeroone.Xray.Clients.{logins_in, all_logins, credential, enabled_users, generate-clients}
use zeroone.Xray.Ports.{count, ports, inbounds-Apart}
use zeroone.Xray.Routes.{tag_of, tags, is_member, all_lead, routing_rules-lead}
use zeroone.Tests.Samples.{sample, sample_cidr}
use zeroone.Tests.Stack.{sample_valid}

generate-clients_example :
    Perm
      (logins_in (public_inbound sample) ++ all_logins (limited_inbounds sample.xray.users))
      (map credential (enabled_users sample.xray.users))
    × (logins_in (xhttp_inbound sample) ≡ logins_in (public_inbound sample))
generate-clients_example = generate-clients sample

inbounds-Apart_example : count (pos 21000) (ports sample) ≤ 1
inbounds-Apart_example =
    inbounds-Apart sample_cidr sample sample_valid (λ h. cc) (λ h. cc) (pos 21000) (λ h. cc)

ai_tag-member : is_member (ai_tag sample) (tags sample) ≡ true
unfolding ai_tag tags outbounds tag_of vless_outbound direct_outbound block_outbound relay_outbound
    spoof_outbound enabled_sites spoof_outbound_tag spoof_mark
ai_tag-member = refl

routing_rules-lead_example : all_lead (tags sample) (routing_rules sample) ≡ true
routing_rules-lead_example = routing_rules-lead sample_cidr sample sample_valid ai_tag-member
