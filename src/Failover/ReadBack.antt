-- ===== src/Failover/ReadBack.antt =====
-- `CurrentMode` after `ApplyMode` (internal/failover/state.go).
use zeroone.Prelude.{
  ◌≡◌, ◌≢◌, ◌⊎◌, inl, inr, String, false, arith, str_eq, str_eq_iff, str_eq_refl, Bool-cases,
}
use zeroone.Stack.{Config}
use zeroone.Failover.Defs.{Mode, proxy_tag, read_mode, current_mode, apply_mode}

-- A mode that a configuration can hold: of the proxy, or of another named outbound.
abbrev pub CanHold : Config → Mode → Type 0
CanHold c m = (m.outbound_tag ≡ proxy_tag c) ⊎ ((m.outbound_tag ≢ "") × (m.interface ≡ ""))

read_mode_proxy :
    (m : Mode) (tag : String) → m.outbound_tag ≡ tag → read_mode "" tag m.interface ≡ m
unfolding read_mode
read_mode_proxy m tag e = ground (arith, str_eq_refl tag)

read_mode_other :
    (m : Mode) (tag iface : String)
    → str_eq m.outbound_tag tag ≡ false
    → m.outbound_tag ≢ ""
    → m.interface ≡ ""
    → read_mode m.outbound_tag tag iface ≡ m
unfolding read_mode
read_mode_other m tag iface e named h = ground (arith, str_eq_iff m.outbound_tag "")

-- A mode that the configuration can hold is read back as it was applied.
pub current_mode-apply_mode :
    (c : Config) (m : Mode) → CanHold c m → current_mode (apply_mode c m) ≡ m
unfolding current_mode apply_mode
current_mode-apply_mode c m h = elim (Bool-cases (str_eq m.outbound_tag (proxy_tag c))) [
  | inl e ↦ rw e (read_mode_proxy m (proxy_tag c) ((str_eq_iff _ _).0 e))
  | inr e ↦ elim h [
    | inl same ↦ absurd (not_same same e)
    | inr (named, plain) ↦
        rw e (read_mode_other m (proxy_tag c) c.xray.outbounds.proxy.interface e named plain)
  ]
]
  where
    not_same : m.outbound_tag ≡ proxy_tag c → str_eq m.outbound_tag (proxy_tag c) ≡ false → ⊥
    not_same same e = cc ((str_eq_iff m.outbound_tag (proxy_tag c)).1 same)
