-- ===== src/Tests/Loops.antt =====
-- Examples of the theorems on the failover loop, the traffic counters and the quotas.
use zeroone.Prelude.{
  ◌+◌, ◌*◌, ◌≡◌, ◌≢◌, arith, refl, some, true, false, none, String, List, [], ◌∷◌, inr, ltb,
  if◌then◌else◌,
}
use zeroone.Prelude.Int.{ℤ, pos, ◌+ℤ◌}
use zeroone.Prelude.Result.{ok}
use zeroone.Prelude.Assoc.{lookup}
use zeroone.Stack.{Config, User}
use zeroone.Stack.Effective.{failover_mode}
use zeroone.Stack.Validate.{validate}
use zeroone.Stack.Mutate.Outcome.{with_users}
use zeroone.Failover.{
  Check, Mode, current_mode, desired_mode, first_healthy_mode, first_healthy, read_mode,
  has_healthy, confirmations, decide, apply_mode, stay,
}
use zeroone.Failover.Ticks.{ticks, decide-ticks}
use zeroone.Failover.ReadBack.{current_mode-apply_mode}
use zeroone.Failover.Apply.{decide-apply_mode, empty_fallback_never_settles}
use zeroone.Usage.{Pairs, pair_of, sync_users}
use zeroone.Usage.Sync.{Distinct, counters, total, read, last_read, sync_users-read}
use zeroone.Usage.Reset.{Calendar, PeriodUser, apply_period_resets}
use zeroone.Usage.Deadlines.{IsForward, AllSettled}
use zeroone.Usage.Rolled.{view, first_user, IsRolled, apply_period_resets-IsRolled}
use zeroone.Enforce.{plan_quota, apply_quota_plan}
use zeroone.Enforce.Quota.{AreCut, apply_quota_plan-settles}
use zeroone.Tests.Samples.{sample, sample_cidr, sample_usage, config_of, check_of, idle, pair}
use zeroone.Tests.Stack.{sample_valid}

-- The proxy's tunnel is down, the second one is up.
abbrev first_down : List Check
first_down = check_of "wg0" false ∷ check_of "wg1" true ∷ []

abbrev second : Mode
second = record { outbound_tag = "proxy"; interface = "wg1" }

wants_second : desired_mode sample first_down ≡ second
unfolding desired_mode failover_mode first_healthy_mode first_healthy has_healthy
wants_second = refl

runs_first : current_mode sample ≡ record { outbound_tag = "proxy"; interface = "wg0" }
unfolding current_mode read_mode
runs_first = refl

sample_confirmations : confirmations sample ≡ pos 3
unfolding confirmations
sample_confirmations = refl

decide-ticks_example :
    let d =
      (decide sample
        (ticks sample idle first_down (pos 1000 ∷ pos 1030 ∷ []))
        first_down
        (pos 1060)).0 in
    (d.pending ≡ ltb 3 3)
    × (d.effective ≡ (if ltb 3 3 then current_mode sample else desired_mode sample first_down))
decide-ticks_example =
    decide-ticks sample first_down 3 idle (pos 1000 ∷ pos 1030 ∷ []) (pos 1060)
      (rw (wants_second, runs_first) refl) (rw wants_second refl) (inr refl) sample_confirmations
      (omega arith) (omega arith)

named : ◌≢◌ {A = String} "fallback" ""
named e = cc

decide-apply_mode_example :
    decide (apply_mode sample (desired_mode sample first_down)) idle first_down (pos 1000)
    ≡ stay idle (desired_mode sample first_down) (desired_mode sample first_down)
decide-apply_mode_example = decide-apply_mode sample idle first_down (pos 1000) named

abbrev fallback : Mode
fallback = record { outbound_tag = "fallback"; interface = "" }

current_mode-apply_mode_example : current_mode (apply_mode sample fallback) ≡ fallback
current_mode-apply_mode_example = current_mode-apply_mode sample fallback (inr (named, refl))

abbrev unset : Config
unset = config_of [] ""

proxy_named : ◌≢◌ {A = String} "proxy" ""
proxy_named e = cc

nothing_up : first_healthy unset.tunnels [] ≡ none
unfolding first_healthy has_healthy
nothing_up = refl

runs_auto : failover_mode unset.failover ≡ "auto"
unfolding failover_mode
runs_auto = refl

empty_fallback_never_settles_example :
    current_mode (apply_mode unset (desired_mode unset [])) ≢ desired_mode unset []
empty_fallback_never_settles_example =
    empty_fallback_never_settles unset [] refl proxy_named nothing_up runs_auto

abbrev raw : Pairs
raw = ("bob", pair (pos 3) (pos 4)) ∷ ("ann", pair (pos 2) (pos 10)) ∷ []

raw-Distinct : Distinct raw
unfolding lookup
raw-Distinct = (refl, (refl, tt))

sync_users-read_example :
    let next = sync_users sample_usage raw (pos 1000) in
    (pair_of "ann" (counters total next)
      ≡ read
          (lookup "ann" raw)
          (pair_of "ann" (counters total sample_usage))
          (pair_of "ann" sample_usage.last_raw))
    × (pair_of "ann" next.last_raw
        ≡ last_read (lookup "ann" raw) (pair_of "ann" sample_usage.last_raw))
sync_users-read_example = sync_users-read total "ann" sample_usage raw (pos 1000) raw-Distinct

-- A calendar of the days from 1970-01-02 on, as it is on the noon of that day, a Friday.
abbrev friday : Calendar
friday = record {
  day_at = λ now hh mm. pos (86400 + hh * 3600 + mm * 60);
  weekday = λ now. 5;
  days_after = λ now n. pos (86400 + n * 86400);
  next_month = λ now. pos 2678400;
}

friday-IsForward : IsForward friday (pos 129600)
unfolding ◌+ℤ◌
friday-IsForward = record {
  since_1970 = omega arith;
  day = λ hh mm h m. ground arith;
  week = λ days h. omega arith;
  month = omega arith;
  weekday = omega arith;
}

abbrev two_users : List PeriodUser
two_users =
    record { email = "ann"; daily_reset_hhmm = "06:30" }
    ∷ record { email = "bob"; daily_reset_hhmm = "" }
    ∷ []

apply_period_resets-IsRolled_example :
    let next = (apply_period_resets friday sample_usage two_users (pos 129600)).1 in
    ((email : String) (u : PeriodUser)
      → first_user email two_users ≡ some u
      → IsRolled friday (pos 129600) u (view email sample_usage) (view email next))
    × AllSettled friday (pos 129600) friday-IsForward next two_users
    × (apply_period_resets friday next two_users (pos 129600) ≡ (false, next))
apply_period_resets-IsRolled_example =
    apply_period_resets-IsRolled friday (pos 129600) friday-IsForward sample_usage two_users

apply_quota_plan-settles_example :
    (vs : List User) × AreCut sample_usage sample.xray.users vs
    × (apply_quota_plan sample_cidr sample (plan_quota sample sample_usage (pos 7))
        ≡ (with_users sample vs, none))
    × (validate sample_cidr (with_users sample vs) ≡ ok tt)
    × ((later : ℤ) → (plan_quota (with_users sample vs) sample_usage later).actions ≡ [])
apply_quota_plan-settles_example =
    apply_quota_plan-settles sample_cidr sample sample_usage (pos 7) sample_valid
