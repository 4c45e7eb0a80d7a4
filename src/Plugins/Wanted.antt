-- ===== src/Plugins/Wanted.antt =====
-- When the relay's process runs (internal/relay/supervisor.go).
use zeroone.Prelude.{
  ◌≡◌, refl, ◌⊎◌, inl, inr, String, Bool, true, false, not, Option, none, some, List, [], ◌∷◌,
  is_empty, if◌then◌else◌,
}
use zeroone.Prelude.Result.{Result, ok, err}
use zeroone.Prelude.Json.{Object}
use zeroone.Stack.{RelayConfig}
use zeroone.Plugins.Relay.{Refusal, render_config}
use zeroone.Plugins.Listen.{option-cases}
use zeroone.Plugins.Child.{
  effective_paths, Manager, Wait, pause, reload_or, child_or_reload, Turn, stop_child, exit_child,
  start_child, not_started, end_turn, file_of, write_config, spawn, with_config, turn, Ending, over,
  reload, Stop, obeys, killed, survives, end_stop, end_wait, idle_manager, turns,
}

-- The child does not outlive the stop.
abbrev pub Stops : Stop → Type 0
Stops survives = ⊥
Stops _ = Unit {0}

-- A wait that no child outlives that is stopped at its end.
abbrev pub Ends : Ending → Type 0
Ends (reload how) = Stops how
Ends over = Unit {0}

abbrev pub AllEnd : List (Turn × Ending) → Type 0
AllEnd [] = Unit {0}
AllEnd ((w, e) ∷ rounds) = Ends e × AllEnd rounds

stop_child-Stops : (how : Stop) (s : Manager) → Stops how → (stop_child how s).child ≡ none
unfolding stop_child end_stop
stop_child-Stops how s h = elim (option-cases s.child) [
  | inl idle ↦ rw (idle, stop_child) idle
  | inr (o, runs) ↦ rw (runs, stop_child) (gone how s h)
]
  where
    gone : (how : Stop) (s : Manager) → Stops how → (end_stop how s).child ≡ none
    gone obeys s h = refl
    gone killed s h = refl
    gone survives s h = absurd h

not-no : (b : Bool) → not b ≡ false → b ≡ true
not-no true h = refl
not-no false h = cc

file_of-ok :
    (writes : Bool) (x : Result Refusal Object) (o : Object) → file_of writes x ≡ some o → x ≡ ok o
file_of-ok writes (err e) o h = cc
file_of-ok true (ok p) o h = cc
file_of-ok false (ok p) o h = cc

module _ (url_path : String → Option String) where
  -- The loaded configuration wants a child with the file `o`.
  pub record IsWanted (w : Turn) (o : Object) : Type 0 where
    pub config : RelayConfig
    pub loaded : w.config ≡ some config
    pub enabled : config.enabled ≡ true
    pub unmanaged : is_empty config.systemd_unit ≡ true
    pub found : w.found (effective_paths config).binary ≡ true
    pub rendered : render_config url_path config ≡ ok o

  -- No child runs, or the one that the configuration wants.
  abbrev pub Fits : Turn → Manager × Wait → Type 0
  Fits w (t, wait) =
      (t.child ≡ none)
      ⊎ ((o : Object) × (t.child ≡ some o)
          × (t.file ≡ some o)
          × (wait ≡ child_or_reload)
          × IsWanted w o)

  Fits-if :
      (w : Turn) (b : Bool) (x y : Manager × Wait)
      → (b ≡ true → Fits w x)
      → (b ≡ false → Fits w y)
      → Fits w (if b then x else y)
  Fits-if w true x y h k = h refl
  Fits-if w false x y h k = k refl

  Fits-option :
      (w : Turn) {A : Type 0} (o : Option A) (x : Manager × Wait) (f : A → Manager × Wait)
      → Fits w x
      → ((a : A) → o ≡ some a → Fits w (f a))
      → Fits w (elim o as (λ p. Manager × Wait) [ none ↦ x | some a ↦ f a ])
  Fits-option w none x f h k = h
  Fits-option w (some a) x f h k = k a refl

  begun-Fits :
      (w : Turn) (starts : Bool) (o : Object) (s : Manager)
      → IsWanted w o
      → s.child ≡ none
      → s.file ≡ some o
      → Fits w (end_turn s (start_child starts o s))
  unfolding start_child not_started
  begun-Fits w true o s wanted idle written =
      rw (idle, start_child) (inr (o, refl, written, refl, wanted))
  begun-Fits w false o s wanted idle written = rw (idle, start_child) (inl refl)

  spawn-Fits :
      (w : Turn) (r : RelayConfig) (s : Manager)
      → w.config ≡ some r
      → r.enabled ≡ true
      → is_empty r.systemd_unit ≡ true
      → w.found (effective_paths r).binary ≡ true
      → s.child ≡ none
      → Fits w (spawn url_path w r s)
  unfolding spawn write_config
  spawn-Fits w r s loaded on unmanaged found idle =
      Fits-option w (file_of w.writes (render_config url_path r)) _ _ (inl idle) (λ o written.
        begun-Fits w w.starts o (record s { file = some o })
          (record {
            config = r;
            loaded = loaded;
            enabled = on;
            unmanaged = unmanaged;
            found = found;
            rendered = file_of-ok w.writes (render_config url_path r) o written;
          })
          idle refl)

  stop_child-idle : (how : Stop) (s : Manager) → s.child ≡ none → (stop_child how s).child ≡ none
  unfolding stop_child
  stop_child-idle how s idle = rw (idle, stop_child) idle

  with_config-Fits :
      (w : Turn) (r : RelayConfig) (s : Manager)
      → w.config ≡ some r
      → s.child ≡ none
      → Fits w (with_config url_path w r s)
  unfolding with_config
  with_config-Fits w r s loaded idle =
      Fits-if w (not r.enabled) _ _ (λ off. inl (stop_child-idle w.stop s idle))
        (λ on.
          Fits-if w (not (is_empty r.systemd_unit)) _ _ (λ managed. inl idle)
            (λ unmanaged.
              Fits-if w (not (w.found (effective_paths r).binary)) _ _ (λ missing. inl idle)
                (λ found.
                  spawn-Fits w r s loaded (not-no _ on) (not-no _ unmanaged) (not-no _ found)
                    idle)))

  turn-Fits : (w : Turn) (s : Manager) → s.child ≡ none → Fits w (turn url_path w s)
  unfolding turn
  turn-Fits w s idle =
      Fits-option w w.config _ _ (inl idle) (λ r loaded. with_config-Fits w r s loaded idle)

  end_wait-idle :
      (wait : Wait) (e : Ending) (s : Manager)
      → Ends e
      → (s.child ≡ none) ⊎ (wait ≡ child_or_reload)
      → (end_wait wait e s).child ≡ none
  unfolding end_wait exit_child
  end_wait-idle child_or_reload over s k h = refl
  end_wait-idle child_or_reload (reload how) s k h = stop_child-Stops how s k
  end_wait-idle (reload_or d) e s k (inl h) = h
  end_wait-idle (reload_or d) e s k (inr h) = cc
  end_wait-idle (pause d) e s k (inl h) = h
  end_wait-idle (pause d) e s k (inr h) = cc

  waits-idle :
      (w : Turn) (e : Ending) (r : Manager × Wait)
      → Ends e
      → Fits w r
      → (end_wait r.1 e r.0).child ≡ none
  waits-idle w e (t, wait) k (inl idle) = end_wait-idle wait e t k (inl idle)
  waits-idle w e (t, wait) k (inr (o, runs, written, waits, wanted)) =
      end_wait-idle wait e t k (inr waits)

  turns-idle :
      (rounds : List (Turn × Ending)) (s : Manager)
      → AllEnd rounds
      → s.child ≡ none
      → (turns url_path rounds s).child ≡ none
  unfolding turns
  turns-idle [] s k idle = idle
  turns-idle ((w, e) ∷ rounds) s (k, ks) idle =
      turns-idle rounds _ ks (waits-idle w e (turn url_path w s) k (turn-Fits w s idle))

  -- The relay runs as it is configured: after any rounds, whatever they find and however their waits end,
  -- where no child outlives the SIGKILL of a stop at the end of a wait, the next round leaves no child, or
  -- one that was started with the file that `RenderConfig` makes of the configuration the round has
  -- loaded, which is enabled, is not managed by systemd, and names a program that is there; the round
  -- then waits for the exit of the child or `Reload`.
  pub turns-Fits :
      (rounds : List (Turn × Ending)) (w : Turn)
      → AllEnd rounds
      → Fits w (turn url_path w (turns url_path rounds idle_manager))
  turns-Fits rounds w ends = turn-Fits w _ (turns-idle rounds idle_manager ends refl)
