-- ===== src/Failover/Defs.antt =====
-- internal/failover/state.go. A health check comes from internal/tunnel/check.go; the state is the
-- loop's memory between two ticks.
use zeroone.Prelude.{
  String, Bool, true, false, not, ◌&&◌, Option, none, some, List, [], ◌∷◌, str_eq, is_empty,
  if◌then◌else◌,
}
use zeroone.Prelude.Int.{ℤ, pos, ltb_ℤ, leb_ℤ, ◌+ℤ◌, ◌-ℤ◌}
use zeroone.Stack.{Config, TunnelConfig}
use zeroone.Stack.Effective.{or_text, failover_mode}

-- The fields of `tunnel.Check` that the loop reads.
pub record Check : Type 0 where
  pub interface : String
  pub healthy : Bool

pub record Mode : Type 0 where
  pub outbound_tag : String
  pub interface : String

pub data Reason : Type 0 where
  already_desired cooldown_active waiting_for_confirmations confirmed_change : Reason

pub record Decision : Type 0 where
  pub current : Mode
  pub desired : Mode
  pub effective : Mode
  pub pending : Bool
  pub confirmation_count : ℤ
  pub cooldown_remaining_seconds : ℤ
  pub reason : Reason

pub record State : Type 0 where
  pub candidate : Mode
  pub count : ℤ
  pub last_change_unix : ℤ

abbrev pub no_mode : Mode
no_mode = record { outbound_tag = ""; interface = "" }

-- `==` of two modes.
abbrev pub same_mode : Mode → Mode → Bool
same_mode m n = str_eq m.outbound_tag n.outbound_tag && str_eq m.interface n.interface

abbrev pub proxy_tag : Config → String
proxy_tag c = c.xray.outbounds.proxy.tag

abbrev pub proxy_mode : Config → String → Mode
proxy_mode c iface = record { outbound_tag = proxy_tag c; interface = iface }

-- `CurrentMode`, from the override, the proxy's tag and its interface.
unfoldable pub read_mode : String → String → String → Mode
read_mode override tag iface = record {
  outbound_tag = or_text override tag;
  interface = if str_eq (or_text override tag) tag then iface else "";
}

unfoldable pub current_mode : Config → Mode
current_mode c =
    read_mode c.xray.routing.ai_outbound_tag (proxy_tag c) c.xray.outbounds.proxy.interface

-- The health in the first check of the interface.
unfoldable pub checked_health : List Check → String → Option Bool
checked_health [] iface = none
checked_health (k ∷ ks) iface =
    if str_eq k.interface iface then some k.healthy else checked_health ks iface

abbrev is_up : Option Bool → Bool
is_up none = false
is_up (some b) = b

-- `tunnelHealthy`: the health and the interface of the first tunnel of the name.
unfoldable pub tunnel_healthy : List TunnelConfig → List Check → String → Option (Bool × String)
unfolding checked_health
tunnel_healthy [] ks name = none
tunnel_healthy (t ∷ ts) ks name =
    if str_eq t.name name
    then some (is_up (checked_health ks t.interface), t.interface)
    else tunnel_healthy ts ks name

unfoldable pub interface_healthy : List Check → String → Bool
unfolding checked_health
interface_healthy ks iface = if is_empty iface then false else is_up (checked_health ks iface)

-- Some check of the interface is healthy: the inner loop of `firstHealthyMode`.
unfoldable pub has_healthy : List Check → String → Bool
has_healthy [] iface = false
has_healthy (k ∷ ks) iface =
    let rest = has_healthy ks iface in if str_eq k.interface iface && k.healthy then true else rest

unfoldable pub first_healthy : List TunnelConfig → List Check → Option String
first_healthy [] ks = none
first_healthy (t ∷ ts) ks =
    let rest = first_healthy ts ks in if has_healthy ks t.interface then some t.interface else rest

unfoldable pub first_healthy_mode : Config → List Check → Mode
first_healthy_mode c ks = elim (first_healthy c.tunnels ks) [
  | some iface ↦ proxy_mode c iface
  | none ↦ record { outbound_tag = c.failover.fallback_outbound_tag; interface = "" }
]

unfoldable pub preferred_mode : Config → List Check → Mode
preferred_mode c ks =
    if is_empty c.failover.preferred_tunnel
    then first_healthy_mode c ks
    else elim (tunnel_healthy c.tunnels ks c.failover.preferred_tunnel) [
      | some (true, iface) ↦ proxy_mode c iface
      | some (false, iface) ↦ first_healthy_mode c ks
      | none ↦ first_healthy_mode c ks
    ]

unfoldable pub manual_mode : Config → List Check → Mode
manual_mode c ks =
    if interface_healthy ks (current_mode c).interface
    then current_mode c
    else first_healthy_mode c ks

-- `DesiredMode`
unfoldable pub desired_mode : Config → List Check → Mode
unfolding preferred_mode manual_mode
desired_mode c ks =
    let mode = failover_mode c.failover in
    if str_eq mode "preferred"
    then preferred_mode c ks
    else if str_eq mode "manual"
    then manual_mode c ks
    else first_healthy_mode c ks

has_interface : String → String → List TunnelConfig → Bool
has_interface name iface [] = false
has_interface name iface (t ∷ ts) =
    let rest = has_interface name iface ts in
    if str_eq t.name name && str_eq t.interface iface then true else rest

-- A return to the preferred tunnel does not wait for the cooldown.
unfoldable pub skip_cooldown : Config → Mode → Bool
unfolding has_interface
skip_cooldown c desired =
    if str_eq (failover_mode c.failover) "preferred"
    then if is_empty c.failover.preferred_tunnel
      then false
      else has_interface c.failover.preferred_tunnel desired.interface c.tunnels
    else false

unfoldable pub in_cooldown : Config → State → ℤ → Bool
in_cooldown c st now =
    ltb_ℤ (pos 0) c.failover.cooldown_seconds
    && ltb_ℤ (pos 0) st.last_change_unix
    && ltb_ℤ (now -ℤ st.last_change_unix) c.failover.cooldown_seconds

unfoldable pub confirmations : Config → ℤ
confirmations c = if leb_ℤ c.failover.confirmations (pos 0) then pos 1 else c.failover.confirmations

abbrev decision : Mode → Mode → Mode → Bool → ℤ → ℤ → Reason → Decision
decision current desired effective pending count remaining reason = record {
  current = current;
  desired = desired;
  effective = effective;
  pending = pending;
  confirmation_count = count;
  cooldown_remaining_seconds = remaining;
  reason = reason;
}

-- The count of confirmations with this tick.
unfoldable pub next_count : State → Mode → ℤ
next_count st desired = if same_mode st.candidate desired then st.count +ℤ pos 1 else pos 1

-- `Decide` below its cooldown test.
unfoldable pub confirm : Config → State → Mode → Mode → ℤ → Decision × State
confirm c st current desired now =
    let n = next_count st desired in
    if ltb_ℤ n (confirmations c)
    then (
      decision current desired current true n (pos 0) waiting_for_confirmations,
      record st { candidate = desired; count = n },
    )
    else (
      decision current desired desired false n (pos 0) confirmed_change,
      record { candidate = no_mode; count = pos 0; last_change_unix = now },
    )

unfoldable pub wait_cooldown : Config → State → Mode → Mode → ℤ → Decision × State
wait_cooldown c st current desired now = (
  decision current desired current true (pos 0)
      (c.failover.cooldown_seconds -ℤ (now -ℤ st.last_change_unix)) cooldown_active,
  st,
)

unfoldable pub stay : State → Mode → Mode → Decision × State
stay st current desired = (
  decision current desired desired false (pos 0) (pos 0) already_desired,
  record st { candidate = no_mode; count = pos 0 },
)

-- `Decide`, from the current and the desired mode on.
unfoldable pub decide_modes : Config → State → Mode → Mode → ℤ → Decision × State
unfolding stay wait_cooldown confirm
decide_modes c st current desired now =
    if same_mode desired current
    then stay st current desired
    else if not (skip_cooldown c desired) && in_cooldown c st now
    then wait_cooldown c st current desired now
    else confirm c st current desired now

unfoldable pub decide : Config → State → List Check → ℤ → Decision × State
unfolding decide_modes
decide c st ks now = decide_modes c st (current_mode c) (desired_mode c ks) now

abbrev pub with_outbound : Config → String → String → Config
with_outbound c tag iface = record c {
  xray = record (c.xray) {
    outbounds = record (c.xray.outbounds) {
      proxy = record (c.xray.outbounds.proxy) { interface = iface };
    };
    routing = record (c.xray.routing) { ai_outbound_tag = tag };
  };
}

-- `ApplyMode`
unfoldable pub apply_mode : Config → Mode → Config
apply_mode c m =
    if str_eq m.outbound_tag (proxy_tag c)
    then with_outbound c "" m.interface
    else with_outbound c m.outbound_tag c.xray.outbounds.proxy.interface
