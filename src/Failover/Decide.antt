-- ===== src/Failover/Decide.antt =====
-- One call of `Decide` (internal/failover/state.go): when it changes the mode, and when it waits.
use zeroone.Prelude.{◌≡◌, ◌≢◌, ◌⊎◌, ◌↔◌, true, false, arith, str_eq_iff}
use zeroone.Prelude.Int.{ℤ, pos, ◌≤ℤ◌, ◌<ℤ◌}
use zeroone.Stack.{Config}
use zeroone.Failover.Defs.{
  Mode, Decision, State, no_mode, same_mode, skip_cooldown, in_cooldown, confirmations, next_count,
}

pub same_mode_iff : (m n : Mode) → (same_mode m n ≡ true) ↔ (m ≡ n)
same_mode_iff m n =
    ground (arith, str_eq_iff m.outbound_tag n.outbound_tag, str_eq_iff m.interface n.interface)

-- The candidate is forgotten.
abbrev pub NoCandidate : State → Type 0
NoCandidate st = (st.candidate ≡ no_mode) × (st.count ≡ pos 0)

-- A change is exempt from the cooldown, or the cooldown is over.
abbrev pub IsFree : Config → State → Mode → ℤ → Type 0
IsFree c st d now = (skip_cooldown c d ≡ true) ⊎ (in_cooldown c st now ≡ false)

-- A wait for another mode than the current one, which stays.
abbrev pub Waits : Mode → Decision × State → Type 0
Waits d r = (r.0.pending ≡ true) × (d ≢ r.0.current) × (r.0.effective ≡ r.0.current)

-- A wait for the end of the cooldown, from which the change is not exempt: the state stays.
abbrev pub Cools : Config → State → Mode → ℤ → Decision × State → Type 0
Cools c st d now r =
    Waits d r × (skip_cooldown c d ≡ false) × (in_cooldown c st now ≡ true) × (r.1 ≡ st)

-- A wait for more confirmations: the wanted mode is the candidate, with one more than it had.
abbrev pub Confirms : Config → State → Mode → ℤ → Decision × State → Type 0
Confirms c st d now r =
    Waits d r
    × IsFree c st d now
    × (next_count st d <ℤ confirmations c)
    × (r.1
        ≡ record { candidate = d; count = next_count st d; last_change_unix = st.last_change_unix })

-- The current mode is the wanted one, and stays.
abbrev pub Stays : State → Mode → Decision × State → Type 0
Stays st d r =
    (r.0.pending ≡ false)
    × (d ≡ r.0.current)
    × (r.0.effective ≡ d)
    × (r.1.last_change_unix ≡ st.last_change_unix)
    × NoCandidate r.1

-- A change to another mode, confirmed often enough, outside the cooldown or exempt from it.
abbrev pub Changes : Config → State → Mode → ℤ → Decision × State → Type 0
Changes c st d now r =
    (r.0.pending ≡ false)
    × (d ≢ r.0.current)
    × (r.0.effective ≡ d)
    × (confirmations c ≤ℤ next_count st d)
    × IsFree c st d now
    × (r.1.last_change_unix ≡ now)
    × NoCandidate r.1

-- What one decision does, with `d` wanted.
abbrev pub Follows : Config → State → Mode → ℤ → Decision × State → Type 0
Follows c st d now r =
    Cools c st d now r ⊎ (Confirms c st d now r ⊎ (Stays st d r ⊎ Changes c st d now r))
