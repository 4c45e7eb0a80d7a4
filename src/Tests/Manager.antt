-- ===== src/Tests/Manager.antt =====
-- Examples of the theorems on the failover manager's ticks, the share links, the plugins and the bandwidth limits.
use zeroone.Prelude.{◌≡◌, ◌≢◌, refl, String, true, false, none, List, [], ◌∷◌}
use zeroone.Prelude.Int.{ℤ, pos, ◌+ℤ◌}
use zeroone.Prelude.Result.{ok}
use zeroone.Stack.{Config, User}
use zeroone.Stack.Rules.{contains}
use zeroone.Stack.Validate.{validate}
use zeroone.Stack.Effective.{
  vless_xhttp_path, vless_xhttp_mode, relay_listen, relay_outbound_tag, spoof_listen, spoof_method,
  spoof_outbound_tag, spoof_tun_addr,
}
use zeroone.Stack.Text.{
  begins_with, atoi, cut, cut_last, has_char, is_space, parse_hhmm, split_at, trim_space,
}
use zeroone.Stack.Rules.{
  is_xhttp_mode, check_tuning, add_port, owner_of, check_extra, check_range, is_range_or_int,
  net_split_host_port, split_host_port,
}
use zeroone.Stack.Validate.{
  check_required, listener_ports, check_endpoints, check_endpoint, check_users, check_user,
  check_limits, check_socks, check_admins, check_admin, check_failover, has_tunnel, check_relay,
  check_sites, check_spoof, check_spoof_fields, spoof_rules, listen_port, is_built_in,
  is_spoof_method,
}
use zeroone.Stack.Effective.{failover_mode}
use zeroone.Failover.{
  first_healthy_mode, first_healthy, has_healthy, read_mode, confirmations, Check, Mode, same_mode,
  current_mode, desired_mode, decide, apply_mode,
}
use zeroone.Failover.{skip_cooldown, in_cooldown, decide_modes, confirm, next_count}
use zeroone.Failover.Manager.{Loop, run_once, run_all, run_all-once}
use zeroone.Stack.Rules.{split_host_port}
use zeroone.Stack.Effective.{spoof_listen, spoof_tun_name}
use zeroone.Stack.Text.Decimal.{show_ℤ}
use zeroone.Prelude.{some, append_text}
use zeroone.Xray.Outbounds.{local_host}
use zeroone.Plugins.Spoof.{byedpi_args, tun2socks_args}
use zeroone.Plugins.Agree.{byedpi_args-validated}
use zeroone.Tests.Stack.{sample_valid}
use zeroone.Prelude.{Option}
use zeroone.Stack.Text.{strip_prefix}
use zeroone.Prelude.Json.{Object, get, str, number}
use zeroone.Stack.Effective.{relay_listen}
use zeroone.Stack.Validate.{relay_rules}
use zeroone.Plugins.Relay.{push, push_all, deployment_ids, render_config}
use zeroone.Plugins.Rendered.{render_config-validated}
use zeroone.Links.Make.{Texts}
use mathlib.Core.List.{Perm}
use mathlib.Core.List.Perm
use zeroone.Prelude.{map}
use zeroone.Xray.Inbounds.{limited_inbounds}
use zeroone.Xray.Ports.{port_of}
use zeroone.Bandwidth.{active_limits}
use zeroone.Bandwidth.Ports.{active_limits-ports}
use zeroone.Tests.Samples.{sample, sample_cidr, check_of, user_of}

abbrev first_down : List Check
first_down = check_of "wg0" false ∷ check_of "wg1" true ∷ []

abbrev second : Mode
second = record { outbound_tag = "proxy"; interface = "wg1" }

-- The second tunnel was wanted at the last two ticks.
abbrev running : Loop
running = record {
  file = sample;
  state = record { candidate = second; count = pos 2; last_change_unix = pos 0 };
  history = [];
  live = sample;
}

named : ◌≢◌ {A = String} "fallback" ""
named e = cc

moved : desired_mode sample first_down ≡ second
unfolding desired_mode failover_mode first_healthy_mode first_healthy has_healthy
moved = refl

runs_first : current_mode sample ≡ record { outbound_tag = "proxy"; interface = "wg0" }
unfolding current_mode read_mode
runs_first = refl

need_three : confirmations sample ≡ pos 3
unfolding confirmations
need_three = refl

now_ready : (decide sample running.state first_down (pos 1000)).0.pending ≡ false
unfolding decide decide_modes confirm next_count skip_cooldown failover_mode in_cooldown ◌+ℤ◌
now_ready = rw (moved, runs_first, need_three) refl

differs : same_mode (desired_mode sample first_down) (current_mode sample) ≡ false
differs = rw (moved, runs_first) refl

still_valid : validate sample_cidr (apply_mode sample (desired_mode sample first_down)) ≡ ok tt
unfolding validate apply_mode check_required listener_ports check_endpoints check_endpoint
    check_users check_user check_limits check_socks check_admins check_admin check_failover
    has_tunnel check_relay check_sites check_spoof check_spoof_fields spoof_rules listen_port
    is_built_in is_spoof_method is_xhttp_mode check_tuning add_port owner_of contains check_extra
    check_range is_range_or_int net_split_host_port split_host_port begins_with atoi cut cut_last
    has_char is_space parse_hhmm split_at trim_space vless_xhttp_path vless_xhttp_mode relay_listen
    relay_outbound_tag spoof_listen spoof_method spoof_outbound_tag spoof_tun_addr
still_valid = rw moved refl

run_all-once_example :
    let later =
      (run_all sample_cidr
        (λ es. es)
        first_down
        ((pos 1030, true) ∷ (pos 1060, true) ∷ [])
        (run_once sample_cidr (λ es. es) first_down (pos 1000) false running)) in
    (later.file ≡ apply_mode sample (desired_mode sample first_down)) × (later.live ≡ sample)
run_all-once_example =
    run_all-once sample_cidr (λ es. es) first_down (pos 1000) false
      ((pos 1030, true) ∷ (pos 1060, true) ∷ []) running named now_ready differs still_valid

-- A stand-in for what Go's libraries do with texts, as ASCII names of no special letters need it.
abbrev pub texts : Texts
texts = record {
  escape = λ s. s;
  encode = λ vs. "encoded";
  marshal = λ o. none;
  to_lower = λ s. s;
  to_upper = λ s. s;
  title = λ c. c;
}

abbrev pub ann : User
ann = user_of "ann" true (pos 100) (pos 21000)

byedpi_args-validated_example :
    (host : String) × (port : ℤ) × (args : List String) × (more : List String) × (split_host_port
        (spoof_listen sample.sni_spoof)
      ≡ some (host, port))
    × (byedpi_args sample.sni_spoof ≡ some ("-i" ∷ host ∷ "-p" ∷ show_ℤ port ∷ args))
    × (tun2socks_args (λ s. s) sample.sni_spoof "warning"
        ≡ "-device"
          ∷ append_text "tun://" (spoof_tun_name sample.sni_spoof)
          ∷ "-proxy"
          ∷ append_text "socks5://" (append_text (local_host host) (append_text ":" (show_ℤ port)))
          ∷ more)
byedpi_args-validated_example =
    byedpi_args-validated sample_cidr (λ s. s) sample "warning" sample_valid refl

active_limits-ports_example :
    Perm
      (map (λ l. l.port) (active_limits (λ ls. ls) sample))
      (map port_of (limited_inbounds sample.xray.users))
active_limits-ports_example = active_limits-ports (λ ls. ls) sample (λ ls. Perm.refl ls)

abbrev relayed : Config
relayed = record sample {
  relay = record (sample.relay) { enabled = true; auth_key = "k"; deployment_ids = "AK" ∷ [] };
}

-- A stand-in for `url.Parse` that knows no address.
abbrev no_path : String → Option String
no_path s = none

relayed_valid : validate sample_cidr relayed ≡ ok tt
unfolding validate check_required listener_ports check_endpoints check_endpoint check_users
    check_user check_limits check_socks check_admins check_admin check_failover has_tunnel
    check_relay check_sites check_spoof check_spoof_fields spoof_rules listen_port is_built_in
    is_spoof_method is_xhttp_mode check_tuning add_port owner_of contains check_extra check_range
    is_range_or_int net_split_host_port split_host_port begins_with atoi cut cut_last has_char
    is_space parse_hhmm split_at trim_space vless_xhttp_path vless_xhttp_mode relay_listen
    relay_outbound_tag spoof_listen spoof_method spoof_outbound_tag spoof_tun_addr relay_rules
relayed_valid = refl

one_deployment : deployment_ids no_path relayed.relay ≡ "AK" ∷ []
unfolding deployment_ids push_all push trim_space contains strip_prefix cut_last
one_deployment = refl

render_config-validated_example :
    (host : String) × (port : ℤ) × (o : Object) × (split_host_port (relay_listen relayed.relay)
      ≡ some (host, port))
    × (render_config no_path relayed.relay ≡ ok o)
    × (get "listen_host" o ≡ some (str host))
    × (get "listen_port" o ≡ some (number port))
render_config-validated_example =
    render_config-validated sample_cidr no_path relayed "AK" [] relayed_valid refl one_deployment
      refl
