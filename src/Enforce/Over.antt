-- ===== src/Enforce/Over.antt =====
-- Which users the quota plan disables (internal/enforce/quota.go).
use zeroone.Prelude.{
  ◌≡◌, ◌≢◌, ◌↔◌, ◌⊎◌, inl, inr, refl, true, Option, none, some, arith, Option-cases,
}
use zeroone.Prelude.Int.{ℤ, pos, ◌<ℤ◌, ◌≤ℤ◌}
use zeroone.Stack.{User}
use zeroone.Usage.{UserState, pair_of}
use zeroone.Enforce.Defs.{
  QuotaAction, Cap, lifetime, daily, weekly, monthly, or_else, over_action, pair_total, is_over,
  cap_action, quota_action,
}

-- The cap is set, and reached.
abbrev pub IsOver : ℤ → ℤ → Type 0
IsOver used cap = (pos 0 <ℤ cap) × (cap ≤ℤ used)

-- The lifetime quota and the caps of the periods, with what counts against them.
abbrev pub Over : UserState → User → Type 0
Over st u =
    IsOver (pair_total (pair_of u.email st.totals)) u.quota_bytes
    ⊎ (IsOver (pair_total (pair_of u.email st.daily)) u.daily_quota_bytes
        ⊎ (IsOver (pair_total (pair_of u.email st.weekly)) u.weekly_quota_bytes
            ⊎ IsOver (pair_total (pair_of u.email st.monthly)) u.monthly_quota_bytes))

over_action-IsOver :
    (u : User) (reason : Cap) (used cap : ℤ) {a : QuotaAction}
    → over_action u reason used cap ≡ some a
    → IsOver used cap
unfolding over_action is_over
over_action-IsOver u reason used cap h = ground arith

over_action-some :
    (u : User) (reason : Cap) (used cap : ℤ)
    → IsOver used cap
    → over_action u reason used cap ≢ none
unfolding over_action is_over
over_action-some u reason used cap h e = ground arith

or_else_cases :
    (o p : Option QuotaAction) {a : QuotaAction}
    → or_else o p ≡ some a
    → (o ≡ some a) ⊎ (p ≡ some a)
or_else_cases none p h = inr h
or_else_cases (some b) p h = inl h

or_else-none : (o p : Option QuotaAction) → or_else o p ≡ none → (o ≡ none) × (p ≡ none)
or_else-none none p h = (refl, h)
or_else-none (some b) p h = cc

cap_action-Over :
    (st : UserState) (u : User) {a : QuotaAction} → cap_action st u ≡ some a → Over st u
unfolding cap_action
cap_action-Over st u h = elim (or_else_cases _ _ h) [
  | inl e ↦ inl (over_action-IsOver u lifetime _ u.quota_bytes e)
  | inr h₁ ↦ elim (or_else_cases _ _ h₁) [
    | inl e ↦ inr (inl (over_action-IsOver u daily _ u.daily_quota_bytes e))
    | inr h₂ ↦ elim (or_else_cases _ _ h₂) [
      | inl e ↦ inr (inr (inl (over_action-IsOver u weekly _ u.weekly_quota_bytes e)))
      | inr e ↦ inr (inr (inr (over_action-IsOver u monthly _ u.monthly_quota_bytes e)))
    ]
  ]
]

Over-cap_action : (st : UserState) (u : User) → Over st u → cap_action st u ≢ none
unfolding cap_action
Over-cap_action st u over h =
    let (h₁, r₁) = or_else-none _ _ h in
    let (h₂, r₂) = or_else-none _ _ r₁ in
    let (h₃, h₄) = or_else-none _ _ r₂ in
    elim over [
      | inl o ↦ over_action-some u lifetime _ u.quota_bytes o h₁
      | inr (inl o) ↦ over_action-some u daily _ u.daily_quota_bytes o h₂
      | inr (inr (inl o)) ↦ over_action-some u weekly _ u.weekly_quota_bytes o h₃
      | inr (inr (inr o)) ↦ over_action-some u monthly _ u.monthly_quota_bytes o h₄
    ]

quota_action-cap :
    (st : UserState) (u : User) {a : QuotaAction}
    → quota_action st u ≡ some a
    → (u.enabled ≡ true) × (cap_action st u ≡ some a)
unfolding quota_action
quota_action-cap st u h = ground arith

planned-Over :
    (st : UserState) (u : User) {a : QuotaAction}
    → quota_action st u ≡ some a
    → (u.enabled ≡ true) × Over st u
planned-Over st u h = let (on, cap) = quota_action-cap st u h in (on, cap_action-Over st u cap)

quota_action-none :
    (st : UserState) (u : User)
    → u.enabled ≡ true
    → quota_action st u ≡ none
    → cap_action st u ≡ none
unfolding quota_action
quota_action-none st u on h = ground arith

Over-planned :
    (st : UserState) (u : User) → (u.enabled ≡ true) × Over st u → quota_action st u ≢ none
Over-planned st u h e = Over-cap_action st u h.1 (quota_action-none st u h.0 e)

-- A user is planned to be disabled exactly if it is enabled and has used up, in total or in one of
-- the periods, a cap that is set.
pub quota_action_iff :
    (st : UserState) (u : User) → (quota_action st u ≢ none) ↔ ((u.enabled ≡ true) × Over st u)
quota_action_iff st u = (planned, Over-planned st u)
  where
    planned : quota_action st u ≢ none → (u.enabled ≡ true) × Over st u
    planned h = elim (Option-cases (quota_action st u)) [
      | inl e ↦ absurd (h e)
      | inr (a, e) ↦ planned-Over st u e
    ]
