-- ===== src/Enforce/Defs.antt =====
-- internal/enforce/quota.go: which users are over a cap, and how they are disabled.
use zeroone.Prelude.{String, Bool, false, ◌&&◌, Option, none, some, List, [], ◌∷◌, if◌then◌else◌}
use zeroone.Prelude.Int.{ℤ, pos, ltb_ℤ, leb_ℤ, ◌+ℤ◌}
use zeroone.Stack.{Config, User}
use zeroone.Stack.Mutate.Outcome.{Outcome}
use zeroone.Stack.Mutate.Users.{set_user_enabled}
use zeroone.Usage.{Pair, UserState, pair_of}

-- The cap that the reason of an action names.
pub data Cap : Type 0 where
  lifetime daily weekly monthly : Cap

-- The action of every planned entry is "disable-user".
pub record QuotaAction : Type 0 where
  pub email : String
  pub used_bytes : ℤ
  pub quota_bytes : ℤ
  pub reason : Cap

pub record QuotaPlan : Type 0 where
  pub generated_at : ℤ
  pub actions : List QuotaAction

unfoldable pub pair_total : Pair → ℤ
pair_total p = p.uplink +ℤ p.downlink

unfoldable pub is_over : ℤ → ℤ → Bool
is_over used cap = ltb_ℤ (pos 0) cap && leb_ℤ cap used

abbrev pub or_else {ℓ} : {A : Type ℓ} → Option A → Option A → Option A
or_else none b = b
or_else (some a) b = some a

unfoldable pub over_action : User → Cap → ℤ → ℤ → Option QuotaAction
over_action u reason used cap =
    if is_over used cap
    then some (record { email = u.email; used_bytes = used; quota_bytes = cap; reason = reason })
    else none

-- The first cap that is exceeded, the lifetime quota before the periods.
unfoldable pub cap_action : UserState → User → Option QuotaAction
cap_action st u =
    or_else (over_action u lifetime (pair_total (pair_of u.email st.totals)) u.quota_bytes) (
      or_else (over_action u daily (pair_total (pair_of u.email st.daily)) u.daily_quota_bytes) (
        or_else (over_action u weekly (pair_total (pair_of u.email st.weekly)) u.weekly_quota_bytes)
          (over_action u monthly (pair_total (pair_of u.email st.monthly)) u.monthly_quota_bytes)))

-- The body of the loop of `PlanQuota`.
unfoldable pub quota_action : UserState → User → Option QuotaAction
quota_action st u = if u.enabled then cap_action st u else none

unfoldable pub add_action : Option QuotaAction → List QuotaAction → List QuotaAction
add_action none as' = as'
add_action (some a) as' = a ∷ as'

unfoldable pub quota_actions : UserState → List User → List QuotaAction
unfolding add_action
quota_actions st [] = []
quota_actions st (u ∷ us) = add_action (quota_action st u) (quota_actions st us)

-- `PlanQuota`
unfoldable pub plan_quota : Config → UserState → ℤ → QuotaPlan
plan_quota c st now = record { generated_at = now; actions = quota_actions st c.xray.users }

abbrev pub and_then : Outcome → (Config → Outcome) → Outcome
and_then (d, none) k = k d
and_then (d, some e) k = (d, some e)

-- The loop of `ApplyQuotaPlan` ends at the first error.
module _ (is_cidr : String → Bool) where
  unfoldable pub apply_actions : Config → List QuotaAction → Outcome
  apply_actions c [] = (c, none)
  apply_actions c (a ∷ as') =
      and_then (set_user_enabled is_cidr c a.email false) (λ d. apply_actions d as')

  unfoldable pub apply_quota_plan : Config → QuotaPlan → Outcome
  apply_quota_plan c plan = apply_actions c plan.actions
