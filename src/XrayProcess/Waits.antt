-- ===== src/XrayProcess/Waits.antt =====
-- How long the supervisor waits before it starts the process again (internal/xrayproc/supervisor.go).
use zeroone.Prelude.{
  ℕ, suc, ◌+◌, ◌*◌, ◌^◌, ◌≡◌, refl, ap, ◌∙◌, arith, true, false, Option, none, List, [], ◌∷◌, leb,
  length, if◌then◌else◌,
}
use zeroone.Prelude.Int.{ℤ, pos, ◌+ℤ◌}
use zeroone.XrayProcess.{
  starting, sleeping, starts, fails, exits, wakes, restarts, second, next_backoff, Supervisor,
  Event, fresh, exited, on_event, on_events, restart_fails,
}

-- The wait after so many setbacks: 2 to their number, at most 60, in seconds.
unfoldable pub wait_after : ℕ → ℤ
wait_after n = pos ((if leb (2 ^ n) 60 then 2 ^ n else 60) * 10 ^ 9)

next_backoff-wait_after : (n : ℕ) → next_backoff (wait_after n) ≡ wait_after (suc n)
unfolding next_backoff wait_after ◌+ℤ◌
next_backoff-wait_after n = ground arith

-- A crash of the process, or a start that fails.
pub data Setback : Type 0 where
  crash failed_start : Setback

abbrev pub events_of : Setback → List Event → List Event
events_of crash es = starts ∷ exits ∷ wakes ∷ es
events_of failed_start es = fails ∷ wakes ∷ es

abbrev pub setbacks : List Setback → List Event → List Event
setbacks [] es = es
setbacks (b ∷ bs) es = events_of b (setbacks bs es)

-- Before a start, with so many setbacks behind and no `Restart` on its way.
abbrev pub before : ℕ → ℤ → Option ℤ → Supervisor
before n count cmd = record {
  place = starting;
  backoff = wait_after n;
  cmd = cmd;
  restart_count = count;
  stopping = false;
}

abbrev with_backoff : ℤ → Option ℤ → ℤ → Supervisor
with_backoff count cmd backoff = record (before 0 count cmd) { backoff = backoff }

after_setback :
    (n : ℕ) (b : Setback) (es : List Event) (count : ℤ) (cmd : Option ℤ)
    → (more : ℤ) × (last : Option ℤ) × (on_events (events_of b es) (before n count cmd)
        ≡ on_events es (before (suc n) more last))
unfolding on_events on_event exited
after_setback n crash es count cmd = (
  count +ℤ pos 1,
  none,
  ap (λ w. on_events es (with_backoff (count +ℤ pos 1) none w)) (next_backoff-wait_after n),
)
after_setback n failed_start es count cmd =
    (count, cmd, ap (λ w. on_events es (with_backoff count cmd w)) (next_backoff-wait_after n))

after_setbacks :
    (n : ℕ) (bs : List Setback) (es : List Event) (count : ℤ) (cmd : Option ℤ)
    → (more : ℤ) × (last : Option ℤ) × (on_events (setbacks bs es) (before n count cmd)
        ≡ on_events es (before (n + length bs) more last))
after_setbacks n [] es count cmd =
    let sum : n ≡ n + 0 = omega arith in
    (count, cmd, ap (λ k. on_events es (before k count cmd)) sum)
after_setbacks n (b ∷ bs) es count cmd =
    let (more, last, same) = after_setback n b (setbacks bs es) count cmd in
    let (most, final, rest) = after_setbacks (suc n) bs es more last in
    let sum : suc n + length bs ≡ n + suc (length bs) = omega arith in
    (most, final, same ∙ rest ∙ ap (λ k. on_events es (before k most final)) sum)

fresh-before : fresh ≡ before 0 (pos 0) none
unfolding wait_after
fresh-before = refl

-- The waits double up to a minute: after any row of crashes and failed starts since the program began,
-- with no call of `Restart` among them, the supervisor waits 2 to their number, at most 60, seconds
-- after the next crash, and then starts the process again.
pub setbacks-wait_after :
    (bs : List Setback)
    → ((on_events (setbacks bs (starts ∷ exits ∷ [])) fresh).place
        ≡ sleeping (wait_after (length bs)))
      × ((on_events (setbacks bs (starts ∷ exits ∷ wakes ∷ [])) fresh).place ≡ starting)
unfolding on_events on_event exited
setbacks-wait_after bs =
    let (count, cmd, one) = after_setbacks 0 bs (starts ∷ exits ∷ []) (pos 0) none in
    let (count', cmd', two) = after_setbacks 0 bs (starts ∷ exits ∷ wakes ∷ []) (pos 0) none in
    let sum : 0 + length bs ≡ length bs = omega arith in
    (
      ap (λ (s : Supervisor). (on_events (setbacks bs (starts ∷ exits ∷ [])) s).place) fresh-before
          ∙ ap (λ (s : Supervisor). s.place) one
          ∙ ap (λ n. sleeping (wait_after n)) sum,
      ap (λ (s : Supervisor). (on_events (setbacks bs (starts ∷ exits ∷ wakes ∷ [])) s).place)
            fresh-before
          ∙ ap (λ (s : Supervisor). s.place) two,
    )

-- A refused `Restart` counts at the next crash: where the supervisor waits before a start, `Restart`
-- leaves the process that is started then without a wait, the backoff being back at a second.
pub refused_restart_skips :
    (delay backoff count : ℤ)
    → let s : Supervisor = record {
      place = sleeping delay;
      backoff = backoff;
      cmd = none;
      restart_count = count;
      stopping = false;
    } in
      (restart_fails s ≡ true)
      × ((on_events (restarts ∷ wakes ∷ starts ∷ exits ∷ []) s).place ≡ starting)
      × ((on_events (restarts ∷ wakes ∷ starts ∷ exits ∷ []) s).backoff ≡ second)
unfolding on_events on_event exited restart_fails
refused_restart_skips delay backoff count = (refl, refl, refl)
