-- ===== src/Usage/Deadlines.antt =====
-- The deadlines that `ApplyPeriodResets` keeps (internal/usage/reset.go).
use zeroone.Prelude.{
  ℕ, ◌+◌, ◌%◌, ◌<◌, ◌≤◌, ◌≡◌, refl, String, Bool, true, false, ◌||◌, List, [], ◌∷◌, arith, str_eq,
  str_eq_refl, some, Bool-cases, Option-cases, inl, inr, if◌then◌else◌,
}
use zeroone.Prelude.Int.{ℤ, pos, ◌<ℤ◌, ◌≤ℤ◌, ◌+ℤ◌}
use zeroone.Prelude.Assoc.{get_or, lookup, lookup-insert, get_or-lookup, insert-lookup}
use zeroone.Stack.Text.{parse_hhmm, parse_hhmm-bounds}
use zeroone.Usage.Defs.{PeriodMeta, UserState, no_meta}
use zeroone.Usage.Reset.{
  Calendar, PeriodUser, parse_hhmm_or_default, days_until_monday, roll, next_daily_reset,
  next_weekly_reset, next_monthly_reset, daily_slot, weekly_slot, monthly_slot, reset_user,
  reset_all, apply_period_resets, zero_if,
}

-- The weekly reset is on the next Monday, one to seven days away.
pub days_until_monday_lem :
    (wd : ℕ)
    → wd < 7
    → (1 ≤ days_until_monday wd)
      × (days_until_monday wd ≤ 7)
      × ((wd + days_until_monday wd) % 7 ≡ 1)
unfolding days_until_monday
days_until_monday_lem wd h = ground arith

-- The default 00:00 is a time of the day too.
parse_hhmm_or_default-bounds :
    (s : String) → ((parse_hhmm_or_default s).0 ≤ 23) × ((parse_hhmm_or_default s).1 ≤ 59)
unfolding parse_hhmm_or_default
parse_hhmm_or_default-bounds s = elim (Option-cases (parse_hhmm s)) [
  | inl e ↦ rw (parse_hhmm_or_default, e) (omega arith, omega arith)
  | inr ((h, m), e) ↦ rw (parse_hhmm_or_default, e) (parse_hhmm-bounds s e)
]

one_day : (wd : ℕ) → 1 ≤ days_until_monday wd
unfolding days_until_monday
one_day wd = ground arith

roll-deadline : (deadline next now : ℤ) → now <ℤ next → now <ℤ (roll deadline next now).deadline
unfolding roll
roll-deadline deadline next now h = ground arith

roll_again :
    (deadline next now : ℤ)
    → pos 0 ≤ℤ now
    → now <ℤ deadline
    → roll deadline next now ≡ record { deadline = deadline; rolls = false; changed = false }
unfolding roll
roll_again deadline next now h k = ground arith

-- At this time the calendar goes forward: no day is longer than 24 hours behind any of its minutes,
-- the midnights and months to come are still to come, and there are seven weekdays.
pub record IsForward (cal : Calendar) (now : ℤ) : Type 0 where
  pub since_1970 : pos 0 ≤ℤ now
  pub day : (hh mm : ℕ) → hh ≤ 23 → mm ≤ 59 → now <ℤ cal.day_at now hh mm +ℤ pos 86400
  pub week : (days : ℕ) → 1 ≤ days → now <ℤ cal.days_after now days
  pub month : now <ℤ cal.next_month now
  pub weekday : cal.weekday now < 7

module _ (cal : Calendar) (now : ℤ) (fwd : IsForward cal now) where
  daily_ahead : (hh mm : ℕ) → hh ≤ 23 → mm ≤ 59 → now <ℤ next_daily_reset cal now hh mm
  unfolding next_daily_reset
  daily_ahead hh mm h m = ground (arith, fwd.day hh mm h m)

  weekly_ahead : now <ℤ next_weekly_reset cal now
  unfolding next_weekly_reset
  weekly_ahead = fwd.week (days_until_monday (cal.weekday now)) (one_day (cal.weekday now))

  monthly_ahead : now <ℤ next_monthly_reset cal now
  unfolding next_monthly_reset
  monthly_ahead = fwd.month

  pub record Ahead (meta : PeriodMeta) : Type 0 where
    pub daily : now <ℤ meta.daily_reset_at
    pub weekly : now <ℤ meta.weekly_reset_at
    pub monthly : now <ℤ meta.monthly_reset_at

  -- The deadlines of the user of the address are there, and still to come.
  abbrev pub Settled : UserState → String → Type 0
  Settled st email = (meta : PeriodMeta) × (lookup email st.periods ≡ some meta) × Ahead meta

  abbrev slots : PeriodMeta → PeriodUser → PeriodMeta
  slots meta u = record {
    daily_reset_at = (daily_slot cal meta u now).deadline;
    weekly_reset_at = (weekly_slot cal meta now).deadline;
    monthly_reset_at = (monthly_slot cal meta now).deadline;
  }

  slots-Ahead : (meta : PeriodMeta) (u : PeriodUser) → Ahead (slots meta u)
  unfolding daily_slot weekly_slot monthly_slot
  slots-Ahead meta u = record {
    daily = roll-deadline meta.daily_reset_at _ now (
        daily_ahead (parse_hhmm_or_default u.daily_reset_hhmm).0
          (parse_hhmm_or_default u.daily_reset_hhmm).1
          (parse_hhmm_or_default-bounds u.daily_reset_hhmm).0
          (parse_hhmm_or_default-bounds u.daily_reset_hhmm).1);
    weekly = roll-deadline meta.weekly_reset_at _ now weekly_ahead;
    monthly = roll-deadline meta.monthly_reset_at _ now monthly_ahead;
  }

  pub reset_user-Settled :
      (st : UserState) (u : PeriodUser) → Settled (reset_user cal st u now).1 u.email
  unfolding reset_user
  reset_user-Settled st u =
      let meta = slots (get_or no_meta u.email st.periods) u in
      (
        meta,
        rw (lookup-insert u.email u.email meta st.periods, str_eq_refl u.email) refl,
        slots-Ahead (get_or no_meta u.email st.periods) u,
      )

  -- Nothing is due for such a user.
  pub reset_user_quiet :
      (st : UserState) (u : PeriodUser) → Settled st u.email → reset_user cal st u now ≡ (false, st)
  unfolding reset_user daily_slot weekly_slot monthly_slot zero_if
  reset_user_quiet st u (meta, known, ahead) = rw (
    get_or-lookup no_meta u.email meta st.periods known,
    roll_again meta.daily_reset_at _ now fwd.since_1970 ahead.daily,
    roll_again meta.weekly_reset_at _ now fwd.since_1970 ahead.weekly,
    roll_again meta.monthly_reset_at _ now fwd.since_1970 ahead.monthly,
    insert-lookup u.email meta st.periods known,
  )

  pub reset_user_keeps :
      (st : UserState) (u : PeriodUser) (email : String)
      → Settled st email
      → Settled (reset_user cal st u now).1 email
  unfolding reset_user
  reset_user_keeps st u email (meta, known, ahead) = elim (Bool-cases (str_eq u.email email)) [
    | inl e ↦ (
      slots (get_or no_meta u.email st.periods) u,
      rw (lookup-insert email u.email _ st.periods, e) refl,
      slots-Ahead (get_or no_meta u.email st.periods) u,
    )
    | inr e ↦ (meta, rw (lookup-insert email u.email _ st.periods, e) known, ahead)
  ]

  reset_all_keeps :
      (b : Bool) (st : UserState) (us : List PeriodUser) (email : String)
      → Settled st email
      → Settled (reset_all cal b st us now).1 email
  unfolding reset_all
  reset_all_keeps b st [] email s = s
  reset_all_keeps b st (u ∷ us) email s =
      reset_all_keeps (b || (reset_user cal st u now).0) (reset_user cal st u now).1 us email
        (reset_user_keeps st u email s)

  abbrev pub AllSettled : UserState → List PeriodUser → Type 0
  AllSettled st [] = Unit {0}
  AllSettled st (u ∷ us) = Settled st u.email × AllSettled st us

  reset_all-AllSettled :
      (b : Bool) (st : UserState) (us : List PeriodUser)
      → AllSettled (reset_all cal b st us now).1 us
  unfolding reset_all
  reset_all-AllSettled b st [] = tt
  reset_all-AllSettled b st (u ∷ us) = (
    reset_all_keeps (b || (reset_user cal st u now).0) (reset_user cal st u now).1 us u.email
        (reset_user-Settled st u),
    reset_all-AllSettled (b || (reset_user cal st u now).0) (reset_user cal st u now).1 us,
  )

  reset_all_quiet :
      (st : UserState) (us : List PeriodUser)
      → AllSettled st us
      → reset_all cal false st us now ≡ (false, st)
  unfolding reset_all
  reset_all_quiet st [] s = refl
  reset_all_quiet st (u ∷ us) s = rw (reset_user_quiet st u s.0, reset_all_quiet st us s.1)

  stamped :
      (b : Bool) (st : UserState) (us : List PeriodUser)
      → AllSettled st us
      → AllSettled (if b then record st { updated_at = now } else st) us
  stamped true st [] s = tt
  stamped false st [] s = tt
  stamped true st (u ∷ us) s = (s.0, stamped true st us s.1)
  stamped false st (u ∷ us) s = s

  -- Where the calendar goes forward, after `ApplyPeriodResets` all three deadlines of every user of
  -- the list are still to come, and the same call again answers that nothing has changed, and leaves
  -- the state as it is.
  pub apply_period_resets-AllSettled :
      (st : UserState) (us : List PeriodUser)
      → let next = (apply_period_resets cal st us now).1 in
        AllSettled next us × (apply_period_resets cal next us now ≡ (false, next))
  unfolding apply_period_resets
  apply_period_resets-AllSettled st us =
      let (changed, next) = reset_all cal false st us now in
      let settled = stamped changed next us (reset_all-AllSettled false st us) in
      (
        settled,
        rw (reset_all_quiet (if changed then record next { updated_at = now } else next) us settled)
            refl,
      )

-- On a day that is longer than 24 hours, in the time beyond them, the daily deadline that a reset
-- sets is not to come, and the next call resets the counter again.
pub long_day_rolls_again :
    (cal : Calendar) (now : ℤ) (hh mm : ℕ) (later : ℤ)
    → cal.day_at now hh mm ≤ℤ now
    → pos 0 <ℤ cal.day_at now hh mm +ℤ pos 86400
    → cal.day_at now hh mm +ℤ pos 86400 ≤ℤ now
    → (roll (next_daily_reset cal now hh mm) later now).rolls ≡ true
unfolding next_daily_reset roll
long_day_rolls_again cal now hh mm later past since long = ground arith
