-- ===== src/Enforce/Quota.antt =====
-- The quota plan of a configuration that passes `Validate`, and what applying it leaves
-- (internal/enforce/quota.go).
use mathlib.Core.List.{append_assoc}
use mathlib.Core.Path.{fun_ext}
use zeroone.Prelude.{
  ◌≡◌, ◌⊎◌, inl, inr, refl, sym, ap, ◌∙◌, String, Bool, true, false, Option, none, some, List, [],
  ◌∷◌, ◌++◌, arith, str_eq, str_eq_iff, Option-cases,
}
use zeroone.Prelude.Int.{ℤ}
use zeroone.Prelude.Result.{ok, ◌>>=◌}
use zeroone.Stack.{Config, User}
use zeroone.Stack.Rules.{Checked, contains, bandwidth, add_port}
use zeroone.Stack.Validate.{
  Ports, check_limits, check_required, listener_ports, check_user, check_users, validate,
}
use zeroone.Stack.Mutate.Outcome.{
  Outcome, with_users, update_first, has_email, change_user, checked,
}
use zeroone.Stack.Mutate.Users.{enable, set_user_enabled}
use zeroone.Stack.Valid.Unique.{Unique, emails, validate-Unique}
use zeroone.Usage.{UserState}
use zeroone.Enforce.Over.{Over, quota_action_iff}
use zeroone.Enforce.Defs.{
  QuotaAction, over_action, cap_action, quota_action, add_action, quota_actions, plan_quota,
  and_then, apply_actions, apply_quota_plan,
}

-- `Validate` reads neither the switch of a user nor the time of a ban.
check_users-enable :
    (before after : List User) (u : User) (on : Bool) (seen : List String) (ps : Ports)
    → check_users (before ++ enable on u ∷ after) seen ps
      ≡ check_users (before ++ u ∷ after) seen ps
unfolding check_users check_user check_limits
check_users-enable [] after u on seen ps = refl
check_users-enable (v ∷ before) after u on seen ps =
    ap
      (λ (k : Ports → Checked Ports).
        check_user v seen >>= λ _. add_port v.bandwidth_port (bandwidth v.email) ps >>= k)
      (fun_ext (check_users-enable before after u on (v.email ∷ seen)))

module _ (is_cidr : String → Bool) where
  validate-enable :
      (c : Config) (before after : List User) (u : User) (on : Bool)
      → validate is_cidr (with_users c (before ++ enable on u ∷ after))
        ≡ validate is_cidr (with_users c (before ++ u ∷ after))
  unfolding validate check_required listener_ports
  validate-enable c before after u on = simp (check_users-enable before after u on)

-- No user of the list has the address.
absent-update_first :
    (email : String) (f : User → User) (before after : List User) (u : User)
    → Unique (emails (before ++ u ∷ after))
    → str_eq u.email email ≡ true
    → update_first (has_email email) f (before ++ u ∷ after) ≡ some (before ++ f u ∷ after)
unfolding update_first contains
absent-update_first email f [] after u un e = rw (e, update_first)
absent-update_first email f (v ∷ before) after u un e = rw (
  not_head email v before after u un.0 e,
  update_first,
  absent-update_first email f before after u un.1 e,
)
  where
    not_head :
        (email : String) (v : User) (before after : List User) (u : User)
        → contains v.email (emails (before ++ u ∷ after)) ≡ false
        → str_eq u.email email ≡ true
        → str_eq v.email email ≡ false
    not_head email v [] after u free e =
        ground
          (arith, str_eq_iff u.email email, str_eq_iff v.email email, str_eq_iff u.email v.email)
    not_head email v (w ∷ before) after u free e = not_head email v before after u (ground arith) e

action-email :
    (st : UserState) (u : User) {a : QuotaAction} → quota_action st u ≡ some a → a.email ≡ u.email
unfolding quota_action cap_action over_action
action-email st u h = ground arith

-- The users with those disabled that the plan names.
pub disable_if : Option QuotaAction → User → User
disable_if none u = u
disable_if (some a) u = enable false u

pub disabled : UserState → List User → List User
unfolding disable_if
disabled st [] = []
disabled st (u ∷ us) = disable_if (quota_action st u) u ∷ disabled st us

quota_action-disabled :
    (st : UserState) (u : User) → quota_action st (disable_if (quota_action st u) u) ≡ none
unfolding disable_if
quota_action-disabled st u = elim (Option-cases (quota_action st u)) [
  | inl e ↦ rw (e, disable_if) e
  | inr (a, e) ↦ rw (e, disable_if) (off st u)
]
  where
    off : (st : UserState) (u : User) → quota_action st (enable false u) ≡ none
    off st u = unfold quota_action in refl

quota_actions-disabled : (st : UserState) (us : List User) → quota_actions st (disabled st us) ≡ []
unfolding quota_actions disabled
quota_actions-disabled st [] = refl
quota_actions-disabled st (u ∷ us) = rw (quota_action-disabled st u, quota_actions-disabled st us)

-- The user as it is to be: disabled where it is enabled and over a cap, and else as it was.
abbrev pub IsCut : UserState → User → User → Type 0
IsCut st u v =
    ((u.enabled ≡ true) × Over st u × (v ≡ enable false u))
    ⊎ ((((u.enabled ≡ true) × Over st u) → ⊥) × (v ≡ u))

-- The users, one by one.
abbrev pub AreCut : UserState → List User → List User → Type 0
AreCut st [] [] = Unit {0}
AreCut st (u ∷ us) (v ∷ vs) = IsCut st u v × AreCut st us vs
AreCut st _ _ = ⊥

disabled-AreCut : (st : UserState) (us : List User) → AreCut st us (disabled st us)
unfolding disabled disable_if
disabled-AreCut st [] = tt
disabled-AreCut st (u ∷ us) = (
  elim (Option-cases (quota_action st u)) [
    | inl e ↦ rw e (inr ((λ over. (quota_action_iff st u).1 over e), refl))
    | inr (a, e) ↦
        let (on, over) = (quota_action_iff st u).0 (λ nothing. cc) in rw e (inl (on, over, refl))
  ],
  disabled-AreCut st us,
)

-- What a step of `ApplyQuotaPlan` does to the user `u` of the list.
module _ (is_cidr : String → Bool) (c : Config) where
  abbrev Good : List User → Type 0
  Good us = validate is_cidr (with_users c us) ≡ ok tt

  disable_one :
      (before after : List User) (u : User) (email : String)
      → Good (before ++ u ∷ after)
      → str_eq u.email email ≡ true
      → set_user_enabled is_cidr (with_users c (before ++ u ∷ after)) email false
        ≡ (with_users c (before ++ enable false u ∷ after), none)
  unfolding set_user_enabled change_user checked
  disable_one before after u email good e = rw (
    absent-update_first email (enable false) before after u
        (validate-Unique is_cidr (with_users c (before ++ u ∷ after)) good).0 e,
    change_user,
    validate-enable is_cidr c before after u false,
    good,
  )

  -- The actions succeed on the users `us`, and leave the users `vs`, which pass `Validate`.
  abbrev Leaves : List User → List QuotaAction → List User → Type 0
  Leaves us as' vs =
      (apply_actions is_cidr (with_users c us) as' ≡ (with_users c vs, none)) × Good vs

  regroup :
      (before us vs : List User) (as' : List QuotaAction) (u : User)
      → Leaves ((before ++ u ∷ []) ++ us) as' ((before ++ u ∷ []) ++ vs)
      → Leaves (before ++ u ∷ us) as' (before ++ u ∷ vs)
  regroup before us vs as' u h =
      rw (append_assoc before (u ∷ []) us, append_assoc before (u ∷ []) vs) at h

  off_then :
      (before after vs : List User) (u : User) (a : QuotaAction) (as' : List QuotaAction)
      → Good (before ++ u ∷ after)
      → str_eq u.email a.email ≡ true
      → Leaves (before ++ enable false u ∷ after) as' vs
      → Leaves (before ++ u ∷ after) (a ∷ as') vs
  unfolding apply_actions
  off_then before after vs u a as' good e h = (
    ap (λ (o : Outcome). and_then o (λ d. apply_actions is_cidr d as'))
          (disable_one before after u a.email good e)
        ∙ h.0,
    h.1,
  )

  apply_actions-disabled :
      (st : UserState) (before after : List User)
      → Good (before ++ after)
      → Leaves (before ++ after) (quota_actions st after) (before ++ disabled st after)
  unfolding apply_actions quota_actions disabled
  apply_actions-disabled st before [] good = (refl, good)
  apply_actions-disabled st before (u ∷ after) good = elim (Option-cases (quota_action st u)) [
    | inl e ↦
        rw (e, disable_if, add_action)
          (regroup before after (disabled st after) (quota_actions st after) u (
            apply_actions-disabled st (before ++ u ∷ []) after
              (rw (append_assoc before (u ∷ []) after) good)))
    | inr (a, e) ↦
        rw (e, disable_if, add_action)
          (off_then before after (before ++ enable false u ∷ disabled st after) u a
            (quota_actions st after) good ((str_eq_iff _ _).1 (sym (action-email st u e)))
            (regroup before after (disabled st after) (quota_actions st after) (enable false u) (
              apply_actions-disabled st (before ++ enable false u ∷ []) after (
                rw
                  (
                    append_assoc before (enable false u ∷ []) after,
                    validate-enable is_cidr c before after u false,
                  )
                  good))))
  ]

-- On a configuration that passes `Validate`, applying the quota plan succeeds and changes nothing but
-- the list of users, in which each user that is enabled and has used up a cap, in total or in one of
-- the periods, is disabled, and every other is as it was; the result passes `Validate`, and a new
-- plan for it, at any time, has no action.
pub apply_quota_plan-settles :
    (is_cidr : String → Bool) (c : Config) (st : UserState) (now : ℤ)
    → validate is_cidr c ≡ ok tt
    → (vs : List User) × AreCut st c.xray.users vs
      × (apply_quota_plan is_cidr c (plan_quota c st now) ≡ (with_users c vs, none))
      × (validate is_cidr (with_users c vs) ≡ ok tt)
      × ((later : ℤ) → (plan_quota (with_users c vs) st later).actions ≡ [])
unfolding apply_quota_plan plan_quota
apply_quota_plan-settles is_cidr c st now valid =
    let (applied, good) = apply_actions-disabled is_cidr c st [] c.xray.users valid in
    (
      disabled st c.xray.users,
      disabled-AreCut st c.xray.users,
      applied,
      good,
      λ later. quota_actions-disabled st c.xray.users,
    )
