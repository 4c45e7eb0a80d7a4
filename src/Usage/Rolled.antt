-- ===== src/Usage/Rolled.antt =====
-- What `ApplyPeriodResets` does to the counters and deadlines of a user (internal/usage/reset.go).
use mathlib.Core.Path.{subst}
use zeroone.Prelude.{
  ℕ, ◌+◌, ◌%◌, ◌≤◌, ◌<◌, ◌≡◌, ◌≢◌, refl, sym, ap, ◌∙◌, String, Bool, true, false, ◌||◌, Option,
  none, some, List, [], ◌∷◌, arith, str_eq, str_eq_iff, str_eq_refl, Bool-cases, inl, inr,
  if◌then◌else◌,
}
use zeroone.Prelude.Int.{ℤ, pos, ltb_ℤ, ◌<ℤ◌, ◌≤ℤ◌, ◌+ℤ◌}
use zeroone.Prelude.Assoc.{get_or, get_or-insert}
use zeroone.Usage.Defs.{Pair, Pairs, PeriodMeta, UserState, no_meta, no_pair, pair_of}
use zeroone.Usage.Reset.{
  Calendar, PeriodUser, parse_hhmm_or_default, days_until_monday, roll, zero_if, next_daily_reset,
  next_weekly_reset, next_monthly_reset, daily_slot, weekly_slot, monthly_slot, reset_user,
  reset_all, apply_period_resets,
}
use zeroone.Usage.Deadlines.{
  IsForward, Settled, AllSettled, days_until_monday_lem, reset_user_quiet, reset_user_keeps,
  reset_user-Settled, apply_period_resets-AllSettled,
}

-- One period: from the deadline `d` and the counter `p` to `d'` and `q`. A deadline that is unset is
-- set and the counter kept; one that has come is moved and the counter set to zero; one that is to
-- come stays, as does the counter.
abbrev pub Rolls : (now next d d' : ℤ) → (p q : Pair) → Type 0
Rolls now next d d' p q =
    (d ≡ pos 0 → (d' ≡ next) × (q ≡ p))
    × (d ≢ pos 0 → d ≤ℤ now → (d' ≡ next) × (q ≡ no_pair))
    × (d ≢ pos 0 → now <ℤ d → (d' ≡ d) × (q ≡ p))

roll-Rolls :
    (now next d : ℤ) (p : Pair)
    → Rolls now next d (roll d next now).deadline p (if (roll d next now).rolls then no_pair else p)
unfolding roll
roll-Rolls now next d p = ground arith

-- The deadlines and counters of an address.
pub record View : Type 0 where
  pub meta : PeriodMeta
  pub daily : Pair
  pub weekly : Pair
  pub monthly : Pair

abbrev pub view : String → UserState → View
view email st = record {
  meta = get_or no_meta email st.periods;
  daily = pair_of email st.daily;
  weekly = pair_of email st.weekly;
  monthly = pair_of email st.monthly;
}

-- The first user of the address.
unfoldable pub first_user : String → List PeriodUser → Option PeriodUser
first_user email [] = none
first_user email (u ∷ us) = if str_eq u.email email then some u else first_user email us

zero_if-own :
    (b : Bool) (email : String) (m : Pairs)
    → pair_of email (zero_if b email m) ≡ (if b then no_pair else pair_of email m)
unfolding zero_if
zero_if-own true email m = rw (get_or-insert, str_eq_refl email)
zero_if-own false email m = refl

zero_if-other :
    (b : Bool) (k email : String) (m : Pairs)
    → str_eq k email ≡ false
    → pair_of email (zero_if b k m) ≡ pair_of email m
unfolding zero_if
zero_if-other true k email m e = rw (get_or-insert, e)
zero_if-other false k email m e = refl

some-path : {u v : PeriodUser} → ◌≡◌ {A = Option PeriodUser} (some u) (some v) → u ≡ v
some-path h = cc

module _ (cal : Calendar) (now : ℤ) where
  -- Each period of the user, whose weekly deadline is a Monday one to seven days away.
  abbrev pub IsRolled : PeriodUser → View → View → Type 0
  IsRolled u v w =
      let (hh, mm) = parse_hhmm_or_default u.daily_reset_hhmm in
      let time = cal.day_at now hh mm in
      Rolls now (if ltb_ℤ now time then time else time +ℤ pos 86400) v.meta.daily_reset_at
        w.meta.daily_reset_at v.daily w.daily
      × ((days : ℕ) × (1 ≤ days)
          × (days ≤ 7)
          × ((cal.weekday now + days) % 7 ≡ 1)
          × Rolls now (cal.days_after now days) v.meta.weekly_reset_at w.meta.weekly_reset_at
              v.weekly w.weekly)
      × Rolls now (cal.next_month now) v.meta.monthly_reset_at w.meta.monthly_reset_at v.monthly
          w.monthly

  carry : (u : PeriodUser) {v v' w w' : View} → v ≡ v' → w ≡ w' → IsRolled u v' w' → IsRolled u v w
  carry u {v} {v'} {w} {w'} e f h =
      subst (λ x. IsRolled u x w) (sym e) (subst (λ x. IsRolled u v' x) (sym f) h)

  reset_user-other :
      (st : UserState) (u : PeriodUser) (email : String)
      → str_eq u.email email ≡ false
      → view email (reset_user cal st u now).1 ≡ view email st
  unfolding reset_user
  reset_user-other st u email e = rw (
    get_or-insert,
    e,
    zero_if-other (daily_slot cal (get_or no_meta u.email st.periods) u now).rolls u.email email
        st.daily e,
    zero_if-other (weekly_slot cal (get_or no_meta u.email st.periods) now).rolls u.email email
        st.weekly e,
    zero_if-other (monthly_slot cal (get_or no_meta u.email st.periods) now).rolls u.email email
        st.monthly e,
  )

  reset_user-own :
      (st : UserState) (u : PeriodUser)
      → let meta = get_or no_meta u.email st.periods in
        view u.email (reset_user cal st u now).1 ≡ record {
          meta = record {
            daily_reset_at = (daily_slot cal meta u now).deadline;
            weekly_reset_at = (weekly_slot cal meta now).deadline;
            monthly_reset_at = (monthly_slot cal meta now).deadline;
          };
          daily = if (daily_slot cal meta u now).rolls then no_pair else pair_of u.email st.daily;
          weekly = if (weekly_slot cal meta now).rolls then no_pair else pair_of u.email st.weekly;
          monthly =
              if (monthly_slot cal meta now).rolls then no_pair else pair_of u.email st.monthly;
        }
  unfolding reset_user
  reset_user-own st u = rw (
    get_or-insert,
    str_eq_refl u.email,
    zero_if-own (daily_slot cal (get_or no_meta u.email st.periods) u now).rolls u.email st.daily,
    zero_if-own (weekly_slot cal (get_or no_meta u.email st.periods) now).rolls u.email st.weekly,
    zero_if-own (monthly_slot cal (get_or no_meta u.email st.periods) now).rolls u.email st.monthly,
  )

  reset_user-IsRolled :
      (st : UserState) (u : PeriodUser)
      → cal.weekday now < 7
      → IsRolled u (view u.email st) (view u.email (reset_user cal st u now).1)
  unfolding next_daily_reset next_weekly_reset next_monthly_reset daily_slot weekly_slot
      monthly_slot
  reset_user-IsRolled st u seven =
      let meta = get_or no_meta u.email st.periods in
      let (hh, mm) = parse_hhmm_or_default u.daily_reset_hhmm in
      let days = days_until_monday (cal.weekday now) in
      let (low, high, monday) = days_until_monday_lem (cal.weekday now) seven in
      carry u {v = view u.email st} refl (reset_user-own st u) (
        roll-Rolls now (next_daily_reset cal now hh mm) meta.daily_reset_at
            (pair_of u.email st.daily),
        (
          days,
          low,
          high,
          monday,
          roll-Rolls now (next_weekly_reset cal now) meta.weekly_reset_at
              (pair_of u.email st.weekly),
        ),
        roll-Rolls now (next_monthly_reset cal now) meta.monthly_reset_at
            (pair_of u.email st.monthly),
      )

module _ (cal : Calendar) (now : ℤ) (fwd : IsForward cal now) where
  reset_user-same :
      (st : UserState) (u : PeriodUser) (email : String)
      → Settled cal now fwd st email
      → view email (reset_user cal st u now).1 ≡ view email st
  reset_user-same st u email s = elim (Bool-cases (str_eq u.email email)) [
    | inl e ↦
        let own = subst (Settled cal now fwd st) (sym ((str_eq_iff u.email email).0 e)) s in
        ap (λ r. view email r.1) (reset_user_quiet cal now fwd st u own)
    | inr e ↦ reset_user-other cal now st u email e
  ]

  -- Once the deadlines of an address are to come, its entries stay.
  reset_all-same :
      (b : Bool) (st : UserState) (us : List PeriodUser) (email : String)
      → Settled cal now fwd st email
      → view email (reset_all cal b st us now).1 ≡ view email st
  unfolding reset_all
  reset_all-same b st [] email s = refl
  reset_all-same b st (u ∷ us) email s =
      reset_all-same (b || (reset_user cal st u now).0) (reset_user cal st u now).1 us email
        (reset_user_keeps cal now fwd st u email s)
      ∙ reset_user-same st u email s

  reset_all-first :
      (b : Bool) (st : UserState) (us : List PeriodUser) (u : PeriodUser)
      → IsRolled cal now u
          (view u.email st)
          (view u.email (reset_all cal b (reset_user cal st u now).1 us now).1)
  reset_all-first b st us u =
      carry cal now u refl
        (reset_all-same b (reset_user cal st u now).1 us u.email
          (reset_user-Settled cal now fwd st u))
        (reset_user-IsRolled cal now st u fwd.weekday)

  reset_all-IsRolled :
      (b : Bool) (st : UserState) (us : List PeriodUser) (email : String) (u : PeriodUser)
      → first_user email us ≡ some u
      → IsRolled cal now u (view email st) (view email (reset_all cal b st us now).1)
  unfolding reset_all first_user
  reset_all-IsRolled b st [] email u h = cc
  reset_all-IsRolled b st (v ∷ us) email u h = elim (Bool-cases (str_eq v.email email)) [
    | inl e ↦
        let same : v ≡ u = some-path (rw e at h) in
        subst
          (λ x. IsRolled cal now x (view email st) (
            view email
              (reset_all cal (b || (reset_user cal st v now).0) (reset_user cal st v now).1 us
                now).1))
          same
          (subst
            (λ k. IsRolled cal now v (view k st) (
              view k
                (reset_all cal (b || (reset_user cal st v now).0) (reset_user cal st v now).1 us
                  now).1))
            ((str_eq_iff v.email email).0 e)
            (reset_all-first (b || (reset_user cal st v now).0) st us v))
    | inr e ↦ carry cal now u (sym (reset_user-other cal now st v email e)) refl (
        reset_all-IsRolled (b || (reset_user cal st v now).0) (reset_user cal st v now).1 us email u
          (rw e at h))
  ]

  view-stamped :
      (b : Bool) (st : UserState) (email : String)
      → view email (if b then record st { updated_at = now } else st) ≡ view email st
  view-stamped true st email = refl
  view-stamped false st email = refl

  -- Where the calendar goes forward, this is what `ApplyPeriodResets` does for the first user of each
  -- address of the list, in each of the three periods: a deadline that is unset is set and the counter
  -- kept, one that has come is moved and the counter set to zero, and one that is to come stays, as
  -- does the counter. The new daily deadline is at the user's time of this day, or 24 hours later where
  -- that is over; the weekly one at the start of a Monday one to seven days away; the monthly one at
  -- the start of the next month. All deadlines of the listed users are then still to come, and the same
  -- call again answers that nothing has changed, and leaves the state as it is.
  pub apply_period_resets-IsRolled :
      (st : UserState) (us : List PeriodUser)
      → let next = (apply_period_resets cal st us now).1 in
        ((email : String) (u : PeriodUser)
          → first_user email us ≡ some u
          → IsRolled cal now u (view email st) (view email next))
        × AllSettled cal now fwd next us
        × (apply_period_resets cal next us now ≡ (false, next))
  unfolding apply_period_resets
  apply_period_resets-IsRolled st us =
      let (changed, next) = reset_all cal false st us now in
      let (settled, still) = apply_period_resets-AllSettled cal now fwd st us in
      (
        λ email u first.
            carry cal now u refl (view-stamped changed next email)
              (reset_all-IsRolled false st us email u first),
        settled,
        still,
      )
