-- ===== src/Usage/Reset.antt =====
-- The scheduled resets (internal/usage/reset.go). The calendar of the server's time zone (Go's `time`)
-- is a parameter; times are unix seconds.
use zeroone.Prelude.{
  ℕ, ◌-◌, ◌%◌, String, Bool, true, false, ◌||◌, none, some, List, [], ◌∷◌, ◌==◌, if◌then◌else◌,
}
use zeroone.Prelude.Int.{ℤ, pos, ltb_ℤ, leb_ℤ, eqb_ℤ, ◌+ℤ◌}
use zeroone.Prelude.Assoc.{get_or, insert}
use zeroone.Stack.Text.{parse_hhmm}
use zeroone.Usage.Defs.{PeriodMeta, Pairs, UserState, no_pair, no_meta}

-- `day_at now hh mm` is `time.Date` of the local day of `now`; `days_after now n` its midnight moved
-- by `AddDate(0, 0, n)`; `next_month now` the first of its month moved by `AddDate(0, 1, 0)`.
pub record Calendar : Type 0 where
  pub day_at : ℤ → ℕ → ℕ → ℤ
  pub weekday : ℤ → ℕ
  pub days_after : ℤ → ℕ → ℤ
  pub next_month : ℤ → ℤ

pub record PeriodUser : Type 0 where
  pub email : String
  pub daily_reset_hhmm : String

-- `parseHHMMOrDefault`
unfoldable pub parse_hhmm_or_default : String → ℕ × ℕ
parse_hhmm_or_default s = elim (parse_hhmm s) [ none ↦ (0, 0) | some p ↦ p ]

-- Monday is day 1; on a Monday the next one is a week away.
unfoldable pub days_until_monday : ℕ → ℕ
days_until_monday wd = let days : ℕ = (8 - wd) % 7 in if days == 0 then 7 else days

-- The slot of one period: its next deadline, and whether the counter rolls over.
pub record Slot : Type 0 where
  pub deadline : ℤ
  pub rolls : Bool
  pub changed : Bool

unfoldable pub roll : ℤ → ℤ → ℤ → Slot
roll deadline next now =
    if eqb_ℤ deadline (pos 0)
    then record { deadline = next; rolls = false; changed = true }
    else if leb_ℤ deadline now
    then record { deadline = next; rolls = true; changed = true }
    else record { deadline = deadline; rolls = false; changed = false }

unfoldable pub zero_if : Bool → String → Pairs → Pairs
zero_if rolls email m = if rolls then insert email no_pair m else m

module _ (cal : Calendar) where
  unfoldable pub next_daily_reset : ℤ → ℕ → ℕ → ℤ
  next_daily_reset now hh mm =
      let t = cal.day_at now hh mm in if ltb_ℤ now t then t else t +ℤ pos 86400

  unfoldable pub next_weekly_reset : ℤ → ℤ
  unfolding days_until_monday
  next_weekly_reset now = cal.days_after now (days_until_monday (cal.weekday now))

  unfoldable pub next_monthly_reset : ℤ → ℤ
  next_monthly_reset now = cal.next_month now

  -- The three slots of a user, from the deadlines kept.
  unfoldable pub daily_slot : PeriodMeta → PeriodUser → ℤ → Slot
  daily_slot meta u now =
      let (hh, mm) = parse_hhmm_or_default u.daily_reset_hhmm in
      roll meta.daily_reset_at (next_daily_reset now hh mm) now

  unfoldable pub weekly_slot : PeriodMeta → ℤ → Slot
  weekly_slot meta now = roll meta.weekly_reset_at (next_weekly_reset now) now

  unfoldable pub monthly_slot : PeriodMeta → ℤ → Slot
  monthly_slot meta now = roll meta.monthly_reset_at (next_monthly_reset now) now

  -- The body of the loop of `ApplyPeriodResets`.
  unfoldable pub reset_user : UserState → PeriodUser → ℤ → Bool × UserState
  reset_user st u now =
      let meta = get_or no_meta u.email st.periods in
      let day = daily_slot meta u now in
      let week = weekly_slot meta now in
      let month = monthly_slot meta now in
      (
        day.changed || week.changed || month.changed,
        record st {
          daily = zero_if day.rolls u.email st.daily;
          weekly = zero_if week.rolls u.email st.weekly;
          monthly = zero_if month.rolls u.email st.monthly;
          periods =
              insert u.email
                (record {
                  daily_reset_at = day.deadline;
                  weekly_reset_at = week.deadline;
                  monthly_reset_at = month.deadline;
                })
                st.periods;
        },
      )

  unfoldable pub reset_all : Bool → UserState → List PeriodUser → ℤ → Bool × UserState
  reset_all changed st [] now = (changed, st)
  reset_all changed st (u ∷ us) now =
      let (c, next) = reset_user st u now in reset_all (changed || c) next us now

  -- `ApplyPeriodResets`
  unfoldable pub apply_period_resets : UserState → List PeriodUser → ℤ → Bool × UserState
  apply_period_resets st us now =
      let (changed, next) = reset_all false st us now in
      (changed, if changed then record next { updated_at = now } else next)
