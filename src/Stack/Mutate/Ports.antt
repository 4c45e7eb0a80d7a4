-- ===== src/Stack/Mutate/Ports.antt =====
-- Rate limits and the ports that they are tied to (internal/stack/mutate.go).
use zeroone.Prelude.{
  ℕ, zero, suc, String, Bool, false, ◌&&◌, ◌||◌, Option, none, some, List, [], ◌∷◌, ◌++◌, map,
  if◌then◌else◌,
}
use zeroone.Prelude.Int.{ℤ, pos, ltb_ℤ, eqb_ℤ}
use zeroone.Stack.Defs.{Config, User}
use zeroone.Stack.Rules.{is_negative}
use zeroone.Stack.Mutate.Outcome.{
  Outcome, negative, no_free_port, not_found, refuse, checked, with_users, split_first, has_email,
}

-- The keys of `used`, which takes positive ports only.
unfoldable pub add_used : ℤ → List ℤ → List ℤ
add_used p ps = if ltb_ℤ (pos 0) p then p ∷ ps else ps

unfoldable pub add_all_used : List ℤ → List ℤ → List ℤ
unfolding add_used
add_all_used [] ps = ps
add_all_used (q ∷ qs) ps = add_used q (add_all_used qs ps)

unfoldable pub is_used : ℤ → List ℤ → Bool
is_used p [] = false
is_used p (q ∷ qs) = eqb_ℤ q p || is_used p qs

-- Every port that `NextBandwidthPort` looks at.
abbrev pub counted_ports : Config → List ℤ
counted_ports c =
    c.xray.inbounds.vless_ws_port
    ∷ c.xray.inbounds.vless_xhttp_port
    ∷ c.xray.inbounds.local_socks_port
    ∷ c.xray.api_port
    ∷ (map (λ s. s.port) c.xray.inbounds.public_socks ++ map (λ u. u.bandwidth_port) c.xray.users)

-- The loop over `rounds` ports from `port` on.
unfoldable pub first_free : ℕ → ℕ → List ℤ → Option ℕ
first_free zero port used = none
first_free (suc rounds) port used =
    let rest = first_free rounds (suc port) used in
    if is_used (pos port) used then rest else some port

unfoldable pub next_bandwidth_port : Config → Option ℕ
unfolding add_all_used first_free
next_bandwidth_port c = first_free 1000 21000 (add_all_used (counted_ports c) [])

abbrev pub set_rates : ℤ → ℤ → User → User
set_rates down up u = record u { download_mbps = down; upload_mbps = up }

abbrev pub set_port : ℤ → User → User
set_port p u = record u { bandwidth_port = p }

-- The configuration with the user `u` at the place that was found.
abbrev pub put_user : Config → List User → User → List User → Config
put_user c before u after = with_users c (before ++ u ∷ after)

module _ (is_cidr : String → Bool) (c : Config) (before : List User) (u : User)
    (after : List User) where
  -- The rates stand in the list when the port is chosen, and stay there if none is free.
  unfoldable pub with_new_port : Option ℕ → Outcome
  with_new_port none = refuse (put_user c before u after) no_free_port
  with_new_port (some p) = checked is_cidr (put_user c before (set_port (pos p) u) after)

  unfoldable pub with_port : Bool → Outcome
  unfolding with_new_port
  with_port unlimited =
      if unlimited
      then checked is_cidr (put_user c before (set_port (pos 0) u) after)
      else if eqb_ℤ u.bandwidth_port (pos 0)
      then with_new_port (next_bandwidth_port (put_user c before u after))
      else checked is_cidr (put_user c before u after)

unfoldable pub set_user_bandwidth : (String → Bool) → Config → String → ℤ → ℤ → Outcome
unfolding with_port
set_user_bandwidth is_cidr c email down up =
    if is_negative down || is_negative up
    then refuse c negative
    else elim (split_first (has_email email) c.xray.users) [
      | none ↦ refuse c (not_found email)
      | some (before, u, after) ↦
          with_port is_cidr c before (set_rates down up u) after
            (eqb_ℤ down (pos 0) && eqb_ℤ up (pos 0))
    ]
