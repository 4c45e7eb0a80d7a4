-- ===== src/Failover/Manager.antt =====
-- A tick of the manager with its history (internal/failover/manager.go, history.go). `sort` stands for
-- `sort.Slice` by the time of an entry; a tick reads the clock once, and reading and writing the state
-- and the history succeed.
use zeroone.Prelude.{
  ◌≡◌, ◌≢◌, refl, ap, ◌∙◌, inl, inr, arith, String, Bool, true, false, ◌||◌, Option, none, some,
  List, [], ◌∷◌, ◌++◌, is_empty, str_eq_refl, if◌then◌else◌, Bool-cases,
}
use zeroone.Prelude.Int.{ℤ, pos, ◌-ℤ◌, leb_ℤ}
use zeroone.Prelude.Result.{ok, err}
use zeroone.Stack.{Config}
use zeroone.Stack.Rules.{Invalid}
use zeroone.Stack.Validate.{validate}
use zeroone.Failover.Defs.{
  Mode, Reason, Decision, State, Check, same_mode, decide, decide_modes, apply_mode, current_mode,
  desired_mode, stay, wait_cooldown, confirm,
}
use zeroone.Failover.Apply.{decide-apply_mode}

-- Why a transition failed.
pub data Failure : Type 0 where
  save_failed : Invalid → Failure
  apply_failed : Failure

-- An entry of the history; `failure` is none for the empty error.
pub record Entry : Type 0 where
  pub t : ℤ
  pub from : Mode
  pub to : Mode
  pub reason : Reason
  pub failure : Option Failure

-- The configuration file, the state of `Decide`, the history, and the configuration that Xray was last
-- given with success.
pub record Loop : Type 0 where
  pub file : Config
  pub state : State
  pub history : List Entry
  pub live : Config

-- The entries of the last 48 hours.
prune : ℤ → List Entry → List Entry
prune cutoff [] = []
prune cutoff (e ∷ es) = let rest = prune cutoff es in if leb_ℤ cutoff e.t then e ∷ rest else rest

module _ (is_cidr : String → Bool) (sort : List Entry → List Entry) where
  -- `AppendHistory`
  unfoldable pub append_history : Entry → ℤ → List Entry → List Entry
  unfolding prune
  append_history e now es = sort (prune (now -ℤ pos 172800) es ++ (e ∷ []))

  -- `recordTransition`
  unfoldable pub record_transition : Decision → Option Failure → ℤ → Loop → Loop
  record_transition d failure now l =
      let entry : Entry = record {
        t = now;
        from = d.current;
        to = d.effective;
        reason = d.reason;
        failure = failure;
      } in
      if is_empty l.file.server.failover_history_path
      then l
      else record l { history = append_history entry now l.history }

  -- From the check of a decided change on; `applied` tells whether Xray takes the configuration.
  unfoldable pub carry_out : Decision → ℤ → Bool → Loop → Loop
  carry_out d now applied l =
      let next = apply_mode l.file d.effective in
      elim (validate is_cidr next) [
        | err e ↦ record_transition d (some (save_failed e)) now l
        | ok valid ↦
            if applied
            then record_transition d none now (record l { file = next; live = next })
            else record_transition d (some apply_failed) now (record l { file = next })
      ]

  -- `runOnce`
  unfoldable pub run_once : List Check → ℤ → Bool → Loop → Loop
  run_once ks now applied l =
      let (d, st) = decide l.file l.state ks now in
      if d.pending || same_mode d.effective d.current
      then record l { state = st }
      else carry_out d now applied (record l { state = st })

  -- A row of ticks with the same health checks, each with its time and whether Xray would take a
  -- configuration.
  unfoldable pub run_all : List Check → List (ℤ × Bool) → Loop → Loop
  run_all ks [] l = l
  run_all ks ((now, applied) ∷ ts) l = run_all ks ts (run_once ks now applied l)

decided_modes :
    (c : Config) (st : State) (current desired : Mode) (now : ℤ)
    → (decide_modes c st current desired now).0.pending ≡ false
    → (decide_modes c st current desired now).0.effective ≡ desired
unfolding decide_modes stay wait_cooldown confirm
decided_modes c st current desired now h = ground (arith, h)

decided_current :
    (c : Config) (st : State) (current desired : Mode) (now : ℤ)
    → (decide_modes c st current desired now).0.current ≡ current
unfolding decide_modes stay wait_cooldown confirm
decided_current c st current desired now = ground arith

if-else {ℓ} :
    {A : Type ℓ} → (b e : Bool) (x y : A) → b ≡ false → e ≡ false → (if b || e then x else y) ≡ y
if-else b e x y h k = rw (h, k) refl

module _ (is_cidr : String → Bool) (sort : List Entry → List Entry) where
  run_once-quiet :
      (ks : List Check) (now : ℤ) (applied : Bool) (l : Loop)
      → (m : Mode) → ((st : State) (now : ℤ) → decide l.file st ks now ≡ stay st m m)
      → ((run_once is_cidr sort ks now applied l).file ≡ l.file)
        × ((run_once is_cidr sort ks now applied l).live ≡ l.live)
  unfolding run_once stay
  run_once-quiet ks now applied l m quiet =
      rw (quiet l.state now, str_eq_refl m.outbound_tag, str_eq_refl m.interface) (refl, refl)

  run_all-quiet :
      (ks : List Check) (ts : List (ℤ × Bool)) (l : Loop) (m : Mode)
      → ((st : State) (now : ℤ) → decide l.file st ks now ≡ stay st m m)
      → ((run_all is_cidr sort ks ts l).file ≡ l.file)
        × ((run_all is_cidr sort ks ts l).live ≡ l.live)
  unfolding run_all
  run_all-quiet ks [] l m quiet = (refl, refl)
  run_all-quiet ks ((now, applied) ∷ ts) l m quiet =
      let next = run_once is_cidr sort ks now applied l in
      let (file, live) = run_once-quiet ks now applied l m quiet in
      let (later_file, later_live) =
        run_all-quiet ks ts next m (λ st at. ap (λ c. decide c st ks at) file ∙ quiet st at) in
      (later_file ∙ file, later_live ∙ live)

  record_transition-keeps :
      (d : Decision) (failure : Option Failure) (now : ℤ) (l : Loop)
      → ((record_transition is_cidr sort d failure now l).file ≡ l.file)
        × ((record_transition is_cidr sort d failure now l).live ≡ l.live)
  unfolding record_transition
  record_transition-keeps d failure now l =
      elim (Bool-cases (is_empty l.file.server.failover_history_path)) [
        | inl e ↦ rw (e, record_transition) (refl, refl)
        | inr e ↦ rw (e, record_transition) (refl, refl)
      ]

  carry_out-applied :
      (d : Decision) (now : ℤ) (applied : Bool) (l : Loop)
      → validate is_cidr (apply_mode l.file d.effective) ≡ ok tt
      → ((carry_out is_cidr sort d now applied l).file ≡ apply_mode l.file d.effective)
        × ((carry_out is_cidr sort d now applied l).live
            ≡ (if applied then apply_mode l.file d.effective else l.live))
  unfolding carry_out
  carry_out-applied d now true l valid =
      rw (valid, carry_out) (record_transition-keeps d none now _)
  carry_out-applied d now false l valid =
      rw (valid, carry_out) (record_transition-keeps d (some apply_failed) now _)

  run_once-changes :
      (ks : List Check) (now : ℤ) (applied : Bool) (l : Loop)
      → (decide l.file l.state ks now).0.pending ≡ false
      → same_mode (desired_mode l.file ks) (current_mode l.file) ≡ false
      → validate is_cidr (apply_mode l.file (desired_mode l.file ks)) ≡ ok tt
      → ((run_once is_cidr sort ks now applied l).file ≡ apply_mode l.file (desired_mode l.file ks))
        × ((run_once is_cidr sort ks now applied l).live
            ≡ (if applied then apply_mode l.file (desired_mode l.file ks) else l.live))
  unfolding run_once decide
  run_once-changes ks now applied l ready change valid =
      let x = decide l.file l.state ks now in
      let desired = desired_mode l.file ks in
      let next = record l { state = x.1 } in
      let effective : x.0.effective ≡ desired =
        decided_modes l.file l.state (current_mode l.file) desired now ready in
      let current : x.0.current ≡ current_mode l.file =
        decided_current l.file l.state (current_mode l.file) desired now in
      let decided : same_mode x.0.effective x.0.current ≡ false =
        ap (λ m. same_mode m x.0.current) effective
        ∙ ap (λ m. same_mode desired m) current
        ∙ change in
      let run : run_once is_cidr sort ks now applied l
          ≡ carry_out is_cidr sort x.0 now applied next =
        if-else x.0.pending (same_mode x.0.effective x.0.current) next
          (carry_out is_cidr sort x.0 now applied next) ready decided in
      let mode : apply_mode l.file x.0.effective ≡ apply_mode l.file desired =
        ap (λ m. apply_mode l.file m) effective in
      let (file, live) =
        carry_out-applied x.0 now applied next (ap (λ c. validate is_cidr c) mode ∙ valid) in
      (
        ap (λ r. r.file) run ∙ file ∙ mode,
        ap (λ r. r.live) run ∙ live ∙ ap (λ c. if applied then c else l.live) mode,
      )

  -- A change is tried once: with a fallback tag, where a tick decides a change of the mode that leaves a
  -- configuration that `Validate` accepts, the file then has the wanted mode after all further ticks
  -- with the same health checks, and Xray runs what the file has if it took the configuration at that
  -- tick; if it did not, no later tick gives it the new configuration.
  pub run_all-once :
      (ks : List Check) (now : ℤ) (applied : Bool) (ts : List (ℤ × Bool)) (l : Loop)
      → l.file.failover.fallback_outbound_tag ≢ ""
      → (decide l.file l.state ks now).0.pending ≡ false
      → same_mode (desired_mode l.file ks) (current_mode l.file) ≡ false
      → validate is_cidr (apply_mode l.file (desired_mode l.file ks)) ≡ ok tt
      → let later = run_all is_cidr sort ks ts (run_once is_cidr sort ks now applied l) in
        (later.file ≡ apply_mode l.file (desired_mode l.file ks))
        × (later.live ≡ (if applied then apply_mode l.file (desired_mode l.file ks) else l.live))
  run_all-once ks now applied ts l named ready change valid =
      let (file, live) = run_once-changes ks now applied l ready change valid in
      let (later_file, later_live) =
        run_all-quiet ks ts (run_once is_cidr sort ks now applied l) (desired_mode l.file ks)
          (λ st at. ap (λ c. decide c st ks at) file ∙ decide-apply_mode l.file st ks at named) in
      (later_file ∙ file, later_live ∙ live)
