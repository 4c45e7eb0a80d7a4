-- ===== src/Tests/Stack.antt =====
-- Examples of the theorems on configurations and their operations.
use zeroone.Prelude.{arith, ◌≡◌, refl, some, none, [], ◌∷◌}
use zeroone.Prelude.Int.{pos}
use zeroone.Prelude.Result.{ok}
use zeroone.Stack.{Config}
use zeroone.Stack.Effective.{
  vless_xhttp_path, vless_xhttp_mode, relay_listen, relay_outbound_tag, spoof_listen, spoof_method,
  spoof_outbound_tag, spoof_tun_addr,
}
use zeroone.Stack.Text.{
  begins_with, atoi, cut, cut_last, has_char, is_space, parse_hhmm, split_at, trim_space,
}
use zeroone.Stack.Rules.{
  is_xhttp_mode, check_tuning, add_port, owner_of, contains, check_extra, check_range,
  is_range_or_int, net_split_host_port, split_host_port,
}
use zeroone.Stack.Validate.{
  validate, check_required, listener_ports, check_endpoints, check_endpoint, check_users,
  check_user, check_limits, check_socks, check_admins, check_admin, check_failover, has_tunnel,
  check_relay, check_sites, check_spoof, check_spoof_fields, spoof_rules, listen_port, is_built_in,
  is_spoof_method,
}
use zeroone.Stack.Mutate.Outcome.{change_user, update_first, checked}
use zeroone.Stack.Mutate.Users.{ban_user}
use zeroone.Stack.Mutate.FreePort.{Found, next_bandwidth_port-Found}
use zeroone.Stack.Mutate.Ports.{counted_ports, next_bandwidth_port}
use zeroone.Stack.Valid.Table.{Apart}
use zeroone.Stack.Valid.Apart.{claimed_ports, validate-Apart}
use zeroone.Stack.Session.Calls.{Call, call, calls}
use zeroone.Stack.Session.Calls
use zeroone.Stack.Session.Names.{IsStaffed}
use zeroone.Stack.Session.Admins.{calls-Staffed}
use zeroone.Tests.Samples.{sample, sample_cidr, same_case}

pub sample_valid : validate sample_cidr sample ≡ ok tt
unfolding validate check_required listener_ports check_endpoints check_endpoint check_users
    check_user check_limits check_socks check_admins check_admin check_failover has_tunnel
    check_relay check_sites check_spoof check_spoof_fields spoof_rules listen_port is_built_in
    is_spoof_method is_xhttp_mode check_tuning add_port owner_of contains check_extra check_range
    is_range_or_int net_split_host_port split_host_port begins_with atoi cut cut_last has_char
    is_space parse_hhmm split_at trim_space vless_xhttp_path vless_xhttp_mode relay_listen
    relay_outbound_tag spoof_listen spoof_method spoof_outbound_tag spoof_tun_addr
sample_valid = refl

-- The configuration before it has an administrator.
abbrev pub unmanned : Config
unmanned = record sample { panel = record sample.panel { admins = [] } }

pub unmanned_valid : validate sample_cidr unmanned ≡ ok tt
unfolding validate check_required listener_ports check_endpoints check_endpoint check_users
    check_user check_limits check_socks check_admins check_admin check_failover has_tunnel
    check_relay check_sites check_spoof check_spoof_fields spoof_rules listen_port is_built_in
    is_spoof_method is_xhttp_mode check_tuning add_port owner_of contains check_extra check_range
    is_range_or_int net_split_host_port split_host_port begins_with atoi cut cut_last has_char
    is_space parse_hhmm split_at trim_space vless_xhttp_path vless_xhttp_mode relay_listen
    relay_outbound_tag spoof_listen spoof_method spoof_outbound_tag spoof_tun_addr
unmanned_valid = refl

validate-Apart_example : Apart (claimed_ports sample)
validate-Apart_example = validate-Apart sample_cidr sample sample_valid

pub sample-IsStaffed : IsStaffed sample.panel.admins
unfolding contains
sample-IsStaffed = record { unique = (refl, (refl, tt)); someone = omega arith }

calls-Staffed_example :
    IsStaffed
      (calls sample_cidr same_case sample (
        Calls.delete_admin "ops"
        ∷ Calls.delete_admin "root"
        ∷ Calls.add_admin " ops" "h2"
        ∷ [])).panel.admins
calls-Staffed_example = calls-Staffed sample_cidr same_case sample _ sample-IsStaffed

pub ban_succeeds : (call sample_cidr same_case sample (Calls.ban_user "bob" (pos 7))).1 ≡ none
unfolding call ban_user change_user update_first checked validate check_required listener_ports
    check_endpoints check_endpoint check_users check_user check_limits check_socks check_admins
    check_admin check_failover has_tunnel check_relay check_sites check_spoof check_spoof_fields
    spoof_rules listen_port is_built_in is_spoof_method is_xhttp_mode check_tuning add_port owner_of
    contains check_extra check_range is_range_or_int net_split_host_port split_host_port begins_with
    atoi cut cut_last has_char is_space parse_hhmm split_at trim_space vless_xhttp_path
    vless_xhttp_mode relay_listen relay_outbound_tag spoof_listen spoof_method spoof_outbound_tag
    spoof_tun_addr
ban_succeeds = refl

next_bandwidth_port-Found_example :
    Found (counted_ports sample) 21000 1000 (next_bandwidth_port sample)
next_bandwidth_port-Found_example = next_bandwidth_port-Found sample

sample_time : parse_hhmm " 23:05" ≡ some (23, 5)
unfolding parse_hhmm
sample_time = refl
