-- ===== src/Plugins/Child.antt =====
-- The supervisor of the relay's process (internal/relay/supervisor.go, state.go, config.go). The exit of a
-- child that has outlived SIGKILL, outside a wait for the child, is left out, and so are the status
-- for the panel, the probes, the events and the times of the log.
use zeroone.Prelude.{
  ◌-◌, String, Bool, not, Option, none, some, List, [], ◌∷◌, ◌++◌, leb, length, drop, is_empty,
  append_text, if◌then◌else◌,
}
use zeroone.Prelude.Int.{ℤ, pos, ltb_ℤ, ◌+ℤ◌}
use zeroone.Prelude.Result.{Result, ok, err}
use zeroone.Prelude.Json.{Object}
use zeroone.Stack.{RelayConfig}
use zeroone.Stack.Effective.{or_text}
use zeroone.Plugins.Relay.{Refusal, render_config}

-- `EffectivePaths`
pub record RelayPaths : Type 0 where
  pub binary : String
  pub config_path : String
  pub state_path : String
  pub log_path : String
  pub health_probe : String

unfoldable pub effective_paths : RelayConfig → RelayPaths
effective_paths r = record {
  binary = or_text r.binary "/usr/local/bin/mhrv-rs";
  config_path = or_text r.config_path "/var/lib/zeroone/relay/config.json";
  state_path = or_text r.state_path "/var/lib/zeroone/relay/state.json";
  log_path = or_text r.log_path "/var/lib/zeroone/relay/relay.log";
  health_probe = or_text r.health_probe "www.google.com:443";
}

-- `LogEntry`, without its time and error.
pub record LogEntry : Type 0 where
  pub level : String
  pub msg : String

-- `Store.AppendLog`
unfoldable pub append_log : LogEntry → List LogEntry → List LogEntry
append_log e logs =
    let all = logs ++ (e ∷ []) in if leb (length all) 200 then all else drop (length all - 200) all

-- `Supervisor` with the local variable of `manageChild` in seconds, the file of the relay, and the log. A
-- child stands for the file that it was started with.
pub record Manager : Type 0 where
  pub child : Option Object
  pub restarts : ℤ
  pub backoff : ℤ
  pub file : Option Object
  pub logs : List LogEntry

-- What the loop waits for: a time alone, a time or `Reload`, the exit of the child or `Reload`.
pub data Wait : Type 0 where
  pause reload_or : (seconds : ℤ) → Wait
  child_or_reload : Wait

-- How a stop ends: SIGTERM is enough, or SIGKILL, or the child outlives both.
pub data Stop : Type 0 where
  obeys killed survives : Stop

-- What a round of the loop finds: the configuration, the programs, whether the file can be written and
-- the program started, and how a stop ends.
pub record Turn : Type 0 where
  pub config : Option RelayConfig
  pub found : String → Bool
  pub writes : Bool
  pub starts : Bool
  pub stop : Stop

abbrev logged : String → String → Manager → Manager
logged level msg s = record s { logs = append_log (record { level = level; msg = msg }) s.logs }

abbrev without_child : Manager → Manager
without_child s = record s { child = none; restarts = s.restarts +ℤ pos 1 }

-- `stopChild` with a child, from SIGTERM on.
unfoldable pub end_stop : Stop → Manager → Manager
end_stop obeys s = logged "info" "relay stopped" (without_child s)
end_stop killed s = logged "info" "relay killed" (without_child s)
end_stop survives s =
    logged "info" "relay killed" (logged "warn" "relay did not exit after SIGKILL" s)

-- `stopChild`
unfoldable pub stop_child : Stop → Manager → Manager
unfolding end_stop
stop_child how s = elim s.child [ none ↦ s | some file ↦ end_stop how s ]

-- The child has exited by itself.
unfoldable pub exit_child : Manager → Manager
exit_child s = logged "warn" "relay exited" (without_child s)

-- `startChild`; none stands for its errors.
unfoldable pub start_child : Bool → Object → Manager → Option Manager
start_child starts o s = elim s.child [
  | some file ↦ some s
  | none ↦
      if starts then some (logged "info" "relay started" (record s { child = some o })) else none
]

-- The end of a round that could not start the child.
unfoldable pub not_started : Manager → Manager × Wait
not_started s = (
  record (logged "error" "start relay" s) {
    backoff = if ltb_ℤ s.backoff (pos 60) then s.backoff +ℤ s.backoff else s.backoff;
  },
  reload_or s.backoff,
)

abbrev pub end_turn : Manager → Option Manager → Manager × Wait
end_turn s none = not_started s
end_turn s (some t) = (record t { backoff = pos 1 }, child_or_reload)

abbrev pub file_of : Bool → Result Refusal Object → Option Object
file_of writes (err e) = none
file_of writes (ok o) = if writes then some o else none

module _ (url_path : String → Option String) where
  -- `WriteConfig`, whose path is not empty; `none` stands for its errors.
  unfoldable pub write_config : Bool → RelayConfig → Option Object
  write_config writes r = file_of writes (render_config url_path r)

  -- The rounds of `manageChild` for an enabled relay that systemd does not manage.
  unfoldable pub spawn : Turn → RelayConfig → Manager → Manager × Wait
  unfolding start_child
  spawn w r s = elim (write_config w.writes r) [
    | none ↦ (logged "error" "render mhrv-rs config" s, reload_or (pos 10))
    | some o ↦ let t = record s { file = some o } in end_turn t (start_child w.starts o t)
  ]

  unfoldable pub with_config : Turn → RelayConfig → Manager → Manager × Wait
  with_config w r s =
      let binary = (effective_paths r).binary in
      if not r.enabled
      then (stop_child w.stop s, reload_or (pos 5))
      else if not (is_empty r.systemd_unit)
      then (s, reload_or (pos 5))
      else if not (w.found binary)
      then (logged "error" (append_text "relay binary not found at " binary) s, reload_or (pos 30))
      else spawn w r s

  -- A round of `manageChild` up to its wait.
  unfoldable pub turn : Turn → Manager → Manager × Wait
  turn w s = elim w.config [
    | none ↦ (logged "error" "load config" s, pause (pos 5))
    | some r ↦ with_config w r s
  ]

-- How a wait ends: the child exits, or the time is over; or `Reload`, with the end of the stop.
pub data Ending : Type 0 where
  over : Ending
  reload : (how : Stop) → Ending

-- `waitChildOrReload` and `waitReloadOrCancel`
unfoldable pub end_wait : Wait → Ending → Manager → Manager
end_wait child_or_reload over s = exit_child s
end_wait child_or_reload (reload how) s = stop_child how s
end_wait (reload_or seconds) _ s = s
end_wait (pause seconds) _ s = s

abbrev pub idle_manager : Manager
idle_manager = record { child = none; restarts = pos 0; backoff = pos 1; file = none; logs = [] }

module _ (url_path : String → Option String) where
  -- Rounds with the ends of their waits.
  unfoldable pub turns : List (Turn × Ending) → Manager → Manager
  turns [] s = s
  turns ((w, e) ∷ rounds) s = let (t, wait) = turn url_path w s in turns rounds (end_wait wait e t)
