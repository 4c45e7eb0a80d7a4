-- ===== src/Enforce/Remaining.antt =====
-- What the session plan leaves of a user's addresses (internal/enforce/sessions.go).
use zeroone.Prelude.{
  ◌≡◌, String, true, false, Option, none, some, List, [], ◌∷◌, map, is_empty, if◌then◌else◌,
}
use zeroone.Prelude.Int.{ℤ, pos, ltb_ℤ}
use zeroone.Stack.{User}
use zeroone.Stack.Rules.{contains}
use zeroone.Stack.Valid.Unique.{Unique}
use zeroone.Enforce.Sessions.{IpDetail, OnlineUser, SessionAction, session_action}

abbrev pub ips : List IpDetail → List String
ips = map (λ (d : IpDetail). d.ip)

-- No address is empty.
abbrev pub Named : List IpDetail → Type 0
Named [] = Unit {0}
Named (d ∷ ds) = (is_empty d.ip ≡ false) × Named ds

-- The details without the kicked addresses.
unfoldable pub without : List String → List IpDetail → List IpDetail
without ks [] = []
without ks (d ∷ ds) = let rest = without ks ds in if contains d.ip ks then rest else d ∷ rest

abbrev pub left_by : List IpDetail → Option SessionAction → List IpDetail
left_by ds none = ds
left_by ds (some a) = without a.kick_ips ds

-- What is left of the user's addresses when the plan is carried out.
unfoldable pub remaining : List (String × ℤ) → OnlineUser → List IpDetail
unfolding session_action
remaining caps x = left_by x.ip_details (session_action caps x)

abbrev AllIn : List String → List IpDetail → Type 0
AllIn ks [] = Unit {0}
AllIn ks (d ∷ ds) = (contains d.ip ks ≡ true) × AllIn ks ds

-- The cap of a user, where it has one.
abbrev cap_or : User → Option ℤ → Option ℤ
cap_or u other = if ltb_ℤ (pos 0) u.max_sessions then some u.max_sessions else other
