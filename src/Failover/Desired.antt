-- ===== src/Failover/Desired.antt =====
-- Which tunnel `firstHealthyMode` picks (internal/failover/state.go).
use zeroone.Prelude.{
  ◌≡◌, refl, String, true, false, ◌&&◌, ◌⊎◌, List, [], ◌∷◌, some, none, arith, str_eq, str_eq_iff,
  str_eq_refl, Bool-cases, inl, inr,
}
use zeroone.Stack.{Config, TunnelConfig}
use zeroone.Failover.Defs.{Check, proxy_mode, has_healthy, first_healthy, first_healthy_mode}

-- The list has a healthy check of the interface.
pub data Up (iface : String) : List Check → Type 0 where
  here : {k : Check} {ks : List Check} → k.interface ≡ iface → k.healthy ≡ true → Up iface (k ∷ ks)
  there : {k : Check} {ks : List Check} → Up iface ks → Up iface (k ∷ ks)

abbrev pub AllDown : List Check → List TunnelConfig → Type 0
AllDown ks [] = Unit {0}
AllDown ks (t ∷ ts) = (¬ Up t.interface ks) × AllDown ks ts

-- `t` is the first tunnel that is up.
pub data FirstUp (ks : List Check) : List TunnelConfig → TunnelConfig → Type 0 where
  head : {t : TunnelConfig} {ts : List TunnelConfig} → Up t.interface ks → FirstUp ks (t ∷ ts) t
  tail :
      {s t : TunnelConfig} {ts : List TunnelConfig}
      → ¬ Up s.interface ks
      → FirstUp ks ts t
      → FirstUp ks (s ∷ ts) t

has_healthy→Up : (ks : List Check) (iface : String) → has_healthy ks iface ≡ true → Up iface ks
unfolding has_healthy
has_healthy→Up [] iface h = cc
has_healthy→Up (k ∷ ks) iface h = elim (Bool-cases (str_eq k.interface iface && k.healthy)) [
  | inl e ↦ here (ground (arith, str_eq_iff k.interface iface)) (ground arith)
  | inr e ↦ there (has_healthy→Up ks iface (rw e at h))
]

Up→has_healthy : {iface : String} {ks : List Check} → Up iface ks → has_healthy ks iface ≡ true
unfolding has_healthy
Up→has_healthy {iface} (here e h) = ground (arith, str_eq_refl iface)
Up→has_healthy (there u) = ground (arith, Up→has_healthy u)

down→not-Up : (ks : List Check) (iface : String) → has_healthy ks iface ≡ false → ¬ Up iface ks
down→not-Up ks iface h u = cc (Up→has_healthy u)

-- What the loop answers for a list of tunnels.
abbrev pub Picked : List Check → List TunnelConfig → Type 0
Picked ks ts =
    (AllDown ks ts × (first_healthy ts ks ≡ none))
    ⊎ ((t : TunnelConfig) × FirstUp ks ts t × (first_healthy ts ks ≡ some t.interface))

first_healthy-Picked : (ks : List Check) (ts : List TunnelConfig) → Picked ks ts
unfolding first_healthy
first_healthy-Picked ks [] = inl (tt, refl)
first_healthy-Picked ks (t ∷ ts) = elim (Bool-cases (has_healthy ks t.interface)) [
  | inl e ↦ inr (t, head (has_healthy→Up ks t.interface e), rw e)
  | inr e ↦ elim (first_healthy-Picked ks ts) [
    | inl (down, h) ↦ inl ((down→not-Up ks t.interface e, down), rw e h)
    | inr (s, up, h) ↦ inr (s, tail (down→not-Up ks t.interface e) up, rw e h)
  ]
]

-- The mode is the proxy's over the first tunnel, in the configured order, of which some check is
-- healthy; if there is none, it is the fallback's.
pub first_healthy_mode_lem :
    (c : Config) (ks : List Check)
    → (AllDown ks c.tunnels
        × (first_healthy_mode c ks
            ≡ record { outbound_tag = c.failover.fallback_outbound_tag; interface = "" }))
      ⊎ ((t : TunnelConfig) × FirstUp ks c.tunnels t
          × (first_healthy_mode c ks ≡ proxy_mode c t.interface))
unfolding first_healthy_mode
first_healthy_mode_lem c ks = elim (first_healthy-Picked ks c.tunnels) [
  | inl (down, e) ↦ inl (down, rw (first_healthy_mode, e))
  | inr (t, up, e) ↦ inr (t, up, rw (first_healthy_mode, e))
]
