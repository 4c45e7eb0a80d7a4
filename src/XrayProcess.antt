-- ===== src/XrayProcess.antt =====
-- The supervisor of the Xray process (internal/xrayproc/supervisor.go). `Run` and `Restart` go on at the
-- same time; what happens to them comes as events in any order. Logs, signals and the program's
-- arguments are left out.
pub mod Waits
use zeroone.Prelude.{
  ℕ, ◌*◌, ◌^◌, Bool, true, false, Option, none, some, List, [], ◌∷◌, if◌then◌else◌,
}
use zeroone.Prelude.Int.{ℤ, pos, ltb_ℤ, ◌+ℤ◌}

-- `time.Second`, in nanoseconds.
abbrev pub second : ℤ
second = pos (10 ^ 9)

abbrev pub minute : ℤ
minute = pos (60 * 10 ^ 9)

-- `nextBackoff`
unfoldable pub next_backoff : ℤ → ℤ
next_backoff cur = let next = cur +ℤ cur in if ltb_ℤ minute next then minute else next

-- Where `Run` is: before `start`, at the exit of the process, in `sleepCtx`, or at its end.
pub data Place : Type 0 where
  starting running ended : Place
  sleeping : (delay : ℤ) → Place

-- `Supervisor` with the local variable of `Run`; `cmd` is the number of the start.
pub record Supervisor : Type 0 where
  pub place : Place
  pub backoff : ℤ
  pub cmd : Option ℤ
  pub restart_count : ℤ
  pub stopping : Bool

-- `start` succeeds or fails; the process exits; the sleep is over; the context is cancelled; a call of
-- `Restart`.
pub data Event : Type 0 where
  starts fails exits wakes cancels restarts : Event

abbrev pub fresh : Supervisor
fresh = record {
  place = starting;
  backoff = second;
  cmd = none;
  restart_count = pos 0;
  stopping = false;
}

-- A sleep of the present backoff, which then grows.
abbrev pub sleep_then_grow : Supervisor → Supervisor
sleep_then_grow s = record s { place = sleeping s.backoff; backoff = next_backoff s.backoff }

abbrev started : Supervisor → Supervisor
started s =
    let n = s.restart_count +ℤ pos 1 in
    record s { place = running; cmd = some n; restart_count = n }

-- The process has exited.
unfoldable pub exited : Supervisor → Supervisor
exited s =
    let t = record s { cmd = none; stopping = false } in
    if s.stopping then record t { place = starting; backoff = second } else sleep_then_grow t

-- An event; one that cannot happen where `Run` is changes nothing.
unfoldable pub on_event : Event → Supervisor → Supervisor
unfolding exited
on_event starts s = elim s.place [ starting ↦ started s | _ ↦ s ]
on_event fails s = elim s.place [ starting ↦ sleep_then_grow s | _ ↦ s ]
on_event exits s = elim s.place [ running ↦ exited s | _ ↦ s ]
on_event wakes s = elim s.place [ sleeping delay ↦ record s { place = starting } | _ ↦ s ]
on_event cancels s = record s { place = ended }
on_event restarts s = record s { stopping = true }

unfoldable pub on_events : List Event → Supervisor → Supervisor
unfolding on_event
on_events [] s = s
on_events (e ∷ es) s = on_events es (on_event e s)

-- What `Restart` answers at once: an error where no process runs.
unfoldable pub restart_fails : Supervisor → Bool
restart_fails s = elim s.cmd [ none ↦ true | some n ↦ false ]
