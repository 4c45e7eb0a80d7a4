-- ===== src/Enforce/Sessions.antt =====
-- internal/enforce/sessions.go: whose addresses are over the cap. Of the snapshot of
-- internal/monitor/online.go there are the fields that the plan reads.
use zeroone.Prelude.{
  ℕ, String, Option, none, some, List, [], ◌∷◌, length, leb, drop, is_empty, if◌then◌else◌,
}
use zeroone.Prelude.Int.{ℤ, pos, pos_part, ltb_ℤ}
use zeroone.Prelude.Assoc.{lookup, insert}
use zeroone.Stack.{Config, User}

pub record IpDetail : Type 0 where
  pub ip : String
  pub last_seen : ℤ

pub record OnlineUser : Type 0 where
  pub email : String
  pub ip_details : List IpDetail

pub record OnlineSnapshot : Type 0 where
  pub window_seconds : ℤ
  pub users : List OnlineUser

-- `SessionAction`; its reason is a text of the two numbers.
pub record SessionAction : Type 0 where
  pub email : String
  pub max_sessions : ℤ
  pub seen_ips : ℕ
  pub kick_ips : List String

pub record SessionPlan : Type 0 where
  pub generated_at : ℤ
  pub window_secs : ℤ
  pub actions : List SessionAction

abbrev pub add_cap : List (String × ℤ) → User → List (String × ℤ)
add_cap caps u = if ltb_ℤ (pos 0) u.max_sessions then insert u.email u.max_sessions caps else caps

-- The loop that fills `caps`.
unfoldable pub caps_of : List (String × ℤ) → List User → List (String × ℤ)
caps_of caps [] = caps
caps_of caps (u ∷ us) = caps_of (add_cap caps u) us

-- The addresses that are not empty.
unfoldable pub addresses : List IpDetail → List String
addresses [] = []
addresses (d ∷ ds) = let rest = addresses ds in if is_empty d.ip then rest else d.ip ∷ rest

unfoldable pub kick : OnlineUser → ℤ → List String → Option SessionAction
kick x cap [] = none
kick x cap (ip ∷ ips) = some (record {
  email = x.email;
  max_sessions = cap;
  seen_ips = length x.ip_details;
  kick_ips = ip ∷ ips;
})

-- A cap is positive, so that `pos_part` is the cap.
unfoldable pub over_cap : OnlineUser → ℤ → Option SessionAction
unfolding kick addresses
over_cap x cap =
    if leb (length x.ip_details) (pos_part cap)
    then none
    else kick x cap (addresses (drop (pos_part cap) x.ip_details))

abbrev pub action_for : OnlineUser → Option ℤ → Option SessionAction
action_for x none = none
action_for x (some cap) = over_cap x cap

-- The body of the second loop of `PlanSessionLimits`.
unfoldable pub session_action : List (String × ℤ) → OnlineUser → Option SessionAction
session_action caps x = action_for x (lookup x.email caps)

unfoldable pub session_actions : List (String × ℤ) → List OnlineUser → List SessionAction
session_actions caps [] = []
session_actions caps (x ∷ xs) =
    let rest = session_actions caps xs in
    elim (session_action caps x) [ none ↦ rest | some a ↦ a ∷ rest ]

-- `PlanSessionLimits`
unfoldable pub plan_session_limits : Config → OnlineSnapshot → ℤ → SessionPlan
plan_session_limits c snap now = record {
  generated_at = now;
  window_secs = snap.window_seconds;
  actions = session_actions (caps_of [] c.xray.users) snap.users;
}
