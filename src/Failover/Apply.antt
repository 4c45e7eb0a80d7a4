-- ===== src/Failover/Apply.antt =====
-- `ApplyMode` against `CurrentMode` and `DesiredMode` (internal/failover/state.go): what the loop has
-- applied is what it reads back and wants on its next tick.
use zeroone.Prelude.{
  ◌≡◌, ◌≢◌, inl, inr, refl, ap, String, true, false, List, arith, str_eq, if◌then◌else◌, str_eq_iff,
  Bool-cases, ◌∙◌, none, [],
}
use zeroone.Prelude.Int.{ℤ}
use zeroone.Stack.{Config}
use zeroone.Stack.Effective.{or_text, failover_mode}
use zeroone.Failover.Defs.{
  Mode, Check, State, proxy_tag, read_mode, current_mode, preferred_mode, manual_mode,
  interface_healthy, first_healthy, first_healthy_mode, desired_mode, decide, decide_modes, stay,
  apply_mode, with_outbound,
}
use zeroone.Failover.Decide.{same_mode_iff}
use zeroone.Failover.ReadBack.{CanHold, current_mode-apply_mode}

-- `ApplyMode` touches the override and the proxy's interface alone.
apply_mode_form :
    (c : Config) (m : Mode)
    → (tag : String) × (iface : String) × (apply_mode c m ≡ with_outbound c tag iface)
unfolding apply_mode
apply_mode_form c m = elim (Bool-cases (str_eq m.outbound_tag (proxy_tag c))) [
  | inl e ↦ ("", m.interface, rw e)
  | inr e ↦ (m.outbound_tag, c.xray.outbounds.proxy.interface, rw e)
]

-- What does not read these two, the modes of the loop with them, stays as it was.
record Unread (c d : Config) (ks : List Check) : Type 0 where
  first : first_healthy_mode d ks ≡ first_healthy_mode c ks
  preferred : preferred_mode d ks ≡ preferred_mode c ks
  mode : d.failover ≡ c.failover

with_outbound-Unread :
    (c : Config) (tag iface : String) (ks : List Check) → Unread c (with_outbound c tag iface) ks
unfolding first_healthy_mode preferred_mode
with_outbound-Unread c tag iface ks = record { first = refl; preferred = refl; mode = refl }

apply_mode-Unread : (c : Config) (m : Mode) (ks : List Check) → Unread c (apply_mode c m) ks
apply_mode-Unread c m ks = unread (apply_mode_form c m)
  where
    unread :
        (tag : String) × (iface : String) × (apply_mode c m ≡ with_outbound c tag iface)
        → Unread c (apply_mode c m) ks
    unread (tag, iface, e) = rw e (with_outbound-Unread c tag iface ks)

first_healthy_mode-CanHold :
    (c : Config) (ks : List Check)
    → c.failover.fallback_outbound_tag ≢ ""
    → CanHold c (first_healthy_mode c ks)
unfolding first_healthy_mode
first_healthy_mode-CanHold c ks named = ground arith

read_mode_healthy :
    (override tag iface : String) (ks : List Check)
    → interface_healthy ks (read_mode override tag iface).interface ≡ true
    → (read_mode override tag iface).outbound_tag ≡ tag
unfolding interface_healthy read_mode
read_mode_healthy override tag iface ks h = elim (Bool-cases (str_eq (or_text override tag) tag)) [
  | inl e ↦ (str_eq_iff _ _).0 e
  | inr e ↦ cc (rw e at h)
]

-- A healthy current interface is the proxy's.
healthy-CanHold :
    (c : Config) (ks : List Check)
    → interface_healthy ks (current_mode c).interface ≡ true
    → CanHold c (current_mode c)
unfolding current_mode
healthy-CanHold c ks h = inl (
    read_mode_healthy c.xray.routing.ai_outbound_tag (proxy_tag c) c.xray.outbounds.proxy.interface
      ks h)

preferred_mode-CanHold :
    (c : Config) (ks : List Check)
    → c.failover.fallback_outbound_tag ≢ ""
    → CanHold c (preferred_mode c ks)
unfolding preferred_mode
preferred_mode-CanHold c ks named = ground (arith, first_healthy_mode-CanHold c ks)

manual_mode-CanHold :
    (c : Config) (ks : List Check)
    → c.failover.fallback_outbound_tag ≢ ""
    → CanHold c (manual_mode c ks)
unfolding manual_mode
manual_mode-CanHold c ks named =
    elim (Bool-cases (interface_healthy ks (current_mode c).interface)) [
      | inl e ↦ rw e (healthy-CanHold c ks e)
      | inr e ↦ rw e (first_healthy_mode-CanHold c ks named)
    ]

pub desired_mode-CanHold :
    (c : Config) (ks : List Check)
    → c.failover.fallback_outbound_tag ≢ ""
    → CanHold c (desired_mode c ks)
unfolding desired_mode
desired_mode-CanHold c ks named =
    ground (
      arith,
      preferred_mode-CanHold c ks,
      manual_mode-CanHold c ks,
      first_healthy_mode-CanHold c ks,
    )

abbrev healthy_or : List Check → Mode → Mode → Mode
healthy_or ks cur other = if interface_healthy ks cur.interface then cur else other

healthy_or_twice :
    (ks : List Check) (cur other : Mode)
    → healthy_or ks (healthy_or ks cur other) other ≡ healthy_or ks cur other
healthy_or_twice ks cur other = ground arith

-- What the manual mode wants, it wants again once it is the current mode.
manual_mode-apply_mode :
    (c : Config) (ks : List Check)
    → c.failover.fallback_outbound_tag ≢ ""
    → manual_mode (apply_mode c (manual_mode c ks)) ks ≡ manual_mode c ks
unfolding manual_mode
manual_mode-apply_mode c ks named =
    rw
      (
        current_mode-apply_mode c (manual_mode c ks) (manual_mode-CanHold c ks named),
        (apply_mode-Unread c (manual_mode c ks) ks).first,
      )
      (healthy_or_twice ks (current_mode c) (first_healthy_mode c ks))

desired_mode-preferred :
    (c : Config) (ks : List Check)
    → str_eq (failover_mode c.failover) "preferred" ≡ true
    → desired_mode c ks ≡ preferred_mode c ks
unfolding desired_mode
desired_mode-preferred c ks e = rw e

desired_mode-manual :
    (c : Config) (ks : List Check)
    → str_eq (failover_mode c.failover) "preferred" ≡ false
    → str_eq (failover_mode c.failover) "manual" ≡ true
    → desired_mode c ks ≡ manual_mode c ks
unfolding desired_mode
desired_mode-manual c ks p e = rw (p, e)

desired_mode-auto :
    (c : Config) (ks : List Check)
    → str_eq (failover_mode c.failover) "preferred" ≡ false
    → str_eq (failover_mode c.failover) "manual" ≡ false
    → desired_mode c ks ≡ first_healthy_mode c ks
unfolding desired_mode
desired_mode-auto c ks p e = rw (p, e)

test-apply_mode :
    (c : Config) (m : Mode) (name : String)
    → str_eq (failover_mode (apply_mode c m).failover) name ≡ str_eq (failover_mode c.failover) name
test-apply_mode c m name = ap (λ f. str_eq (failover_mode f) name) (apply_mode-Unread c m []).mode

-- With a fallback tag, what the loop wants it still wants when it has applied it and the health
-- checks are the same, in every failover mode.
pub desired_mode-apply_mode :
    (c : Config) (ks : List Check)
    → c.failover.fallback_outbound_tag ≢ ""
    → desired_mode (apply_mode c (desired_mode c ks)) ks ≡ desired_mode c ks
desired_mode-apply_mode c ks named =
    elim (Bool-cases (str_eq (failover_mode c.failover) "preferred")) [
      | inl p ↦ rw (desired_mode-preferred c ks p) (
          desired_mode-preferred _ ks (test-apply_mode c (preferred_mode c ks) _ ∙ p)
          ∙ (apply_mode-Unread c (preferred_mode c ks) ks).preferred)
      | inr p ↦ elim (Bool-cases (str_eq (failover_mode c.failover) "manual")) [
        | inl e ↦ rw (desired_mode-manual c ks p e) (
            desired_mode-manual _ ks (test-apply_mode c (manual_mode c ks) _ ∙ p)
              (test-apply_mode c (manual_mode c ks) _ ∙ e)
            ∙ manual_mode-apply_mode c ks named)
        | inr e ↦ rw (desired_mode-auto c ks p e) (
            desired_mode-auto _ ks (test-apply_mode c (first_healthy_mode c ks) _ ∙ p)
              (test-apply_mode c (first_healthy_mode c ks) _ ∙ e)
            ∙ (apply_mode-Unread c (first_healthy_mode c ks) ks).first)
      ]
    ]

-- With a fallback tag, the tick after a change that was applied finds the configuration in the mode
-- that it wants, whatever its state and the time, as long as the health checks are the same.
pub decide-apply_mode :
    (c : Config) (st : State) (ks : List Check) (now : ℤ)
    → c.failover.fallback_outbound_tag ≢ ""
    → let d = desired_mode c ks in decide (apply_mode c d) st ks now ≡ stay st d d
unfolding decide decide_modes
decide-apply_mode c st ks now named = rw (
  desired_mode-apply_mode c ks named,
  current_mode-apply_mode c (desired_mode c ks) (desired_mode-CanHold c ks named),
  (same_mode_iff (desired_mode c ks) (desired_mode c ks)).1 refl,
)

or_text_named : (s t : String) → t ≢ "" → or_text s t ≢ ""
or_text_named s t named e = ground (arith, str_eq_iff s "")

current_mode_named : (c : Config) → proxy_tag c ≢ "" → (current_mode c).outbound_tag ≢ ""
unfolding current_mode read_mode
current_mode_named c named = or_text_named c.xray.routing.ai_outbound_tag (proxy_tag c) named

with_outbound-proxy_tag : (c : Config) (m : Mode) → proxy_tag (apply_mode c m) ≡ proxy_tag c
unfolding apply_mode
with_outbound-proxy_tag c m = elim (Bool-cases (str_eq m.outbound_tag (proxy_tag c))) [
  | inl e ↦ rw e
  | inr e ↦ rw e
]

desired_mode-fallback :
    (c : Config) (ks : List Check)
    → str_eq (failover_mode c.failover) "preferred" ≡ false
    → str_eq (failover_mode c.failover) "manual" ≡ false
    → first_healthy c.tunnels ks ≡ none
    → (desired_mode c ks).outbound_tag ≡ c.failover.fallback_outbound_tag
unfolding first_healthy_mode
desired_mode-fallback c ks p m down = rw (desired_mode-auto c ks p m, first_healthy_mode, down)

-- Without a fallback tag, when no tunnel is healthy in the "auto" mode the loop wants a mode that it
-- cannot apply: after the change the configuration is in another mode than the wanted one.
pub empty_fallback_never_settles :
    (c : Config) (ks : List Check)
    → c.failover.fallback_outbound_tag ≡ ""
    → proxy_tag c ≢ ""
    → first_healthy c.tunnels ks ≡ none
    → failover_mode c.failover ≡ "auto"
    → current_mode (apply_mode c (desired_mode c ks)) ≢ desired_mode c ks
empty_fallback_never_settles c ks unset named down auto same =
    current_mode_named (apply_mode c (desired_mode c ks))
      (rw (with_outbound-proxy_tag c (desired_mode c ks)) named)
      (ap (λ (m : Mode). m.outbound_tag) same
        ∙ desired_mode-fallback c ks (rw auto) (rw auto) down
        ∙ unset)
