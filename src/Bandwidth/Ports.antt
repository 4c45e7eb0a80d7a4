-- ===== src/Bandwidth/Ports.antt =====
-- The ports that are limited (internal/bandwidth/plan.go) and those of the limited inbounds
-- (internal/xray/generate.go).
use mathlib.Core.List.{Perm}
use zeroone.Prelude.Json.{Object}
use mathlib.Core.List.Perm
use zeroone.Prelude.{subst, ◌≡◌, refl, ◌&&◌, List, [], ◌∷◌, map, arith, if◌then◌else◌}
use zeroone.Stack.{Config, User}
use zeroone.Xray.Inbounds.{is_limited, limited_inbound, limited_inbounds}
use zeroone.Xray.Ports.{port_of}
use zeroone.Bandwidth.{Limit, skipped, limit_of, limits_of, active_limits}

limits-step :
    (u : User) (ls : List Limit) (os : List Object)
    → map (λ l. l.port) ls ≡ map port_of os
    → map (λ l. l.port) (if skipped u then ls else limit_of u ∷ ls)
      ≡ map port_of (if u.enabled && is_limited u then limited_inbound u ∷ os else os)
unfolding port_of limited_inbound
limits-step u ls os h = ground (arith, h)

limits-ports :
    (us : List User) → map (λ l. l.port) (limits_of us) ≡ map port_of (limited_inbounds us)
unfolding limits_of limited_inbounds
limits-ports [] = refl
limits-ports (u ∷ us) = limits-step u (limits_of us) (limited_inbounds us) (limits-ports us)

-- The limits are on the ports of the limited inbounds: where `sort` only changes the order,
-- `ActiveLimits` has, in some order, exactly the ports of the limited inbounds that `Generate` makes,
-- each as often as there.
pub active_limits-ports :
    (sort : List Limit → List Limit) (c : Config)
    → ((ls : List Limit) → Perm (sort ls) ls)
    → Perm (map (λ l. l.port) (active_limits sort c)) (map port_of (limited_inbounds c.xray.users))
unfolding active_limits
active_limits-ports sort c sorted =
    subst (λ ps. Perm (map (λ l. l.port) (sort (limits_of c.xray.users))) ps)
      (limits-ports c.xray.users) (Perm.map (λ l. l.port) (sorted (limits_of c.xray.users)))
