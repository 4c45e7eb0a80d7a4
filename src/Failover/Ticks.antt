-- ===== src/Failover/Ticks.antt =====
-- A row of ticks on which the loop wants the same change (internal/failover/manager.go): it waits for
-- the configured confirmations and then changes.
use zeroone.Prelude.{
  ℕ, suc, ◌+◌, ◌^◌, ◌<◌, ◌≡◌, refl, true, false, List, [], ◌∷◌, arith, length, ltb, subst, not,
  ◌&&◌, if◌then◌else◌, ◌⊎◌,
}
use native.Mathlib.Nat.{add-zero, zero-add}
use zeroone.Prelude.Int.{ℤ, pos, ltb_ℤ, ◌+ℤ◌}
use zeroone.Stack.{Config}
use zeroone.Failover.Defs.{
  State, Check, same_mode, current_mode, desired_mode, skip_cooldown, in_cooldown, confirmations,
  next_count, confirm, decide_modes, decide,
}
use zeroone.Failover.Decide.{same_mode_iff}

-- The state after ticks at the times of the list, on each of which nothing is applied.
unfoldable pub ticks : Config → State → List Check → List ℤ → State
ticks c st ks [] = st
ticks c st ks (now ∷ nows) = ticks c (decide c st ks now).1 ks nows

-- One more confirmation, counted in a 64-bit `int`.
count_up : (n : ℕ) → n < 2 ^ 62 → pos n +ℤ pos 1 ≡ pos (suc n)
unfolding ◌+ℤ◌
count_up n h = ground arith

ltb_pos : (a b : ℕ) → a < b → ltb_ℤ (pos a) (pos b) ≡ true
ltb_pos a b h = ground arith

module _ (c : Config) (ks : List Check) where
  -- Whether the last change, if there was one, does not hold the next one back.
  abbrev pub IsFree : State → Type 0
  IsFree st = (skip_cooldown c (desired_mode c ks) ≡ true) ⊎ (st.last_change_unix ≡ pos 0)

  -- The tick to come is confirmation `n + 1`.
  record Seen (n : ℕ) (st : State) : Type 0 where
    next : next_count st (desired_mode c ks) ≡ pos (suc n)
    free : IsFree st

  cooldown_passed :
      (st : State) (now : ℤ)
      → IsFree st
      → not (skip_cooldown c (desired_mode c ks)) && in_cooldown c st now ≡ false
  unfolding in_cooldown
  cooldown_passed st now f = ground arith

  decide-confirm :
      (st : State) (now : ℤ)
      → same_mode (desired_mode c ks) (current_mode c) ≡ false
      → IsFree st
      → decide c st ks now ≡ confirm c st (current_mode c) (desired_mode c ks) now
  unfolding decide decide_modes
  decide-confirm st now wants f = rw (wants, cooldown_passed st now f)

  Seen-confirm :
      (need n : ℕ) (st : State) (now : ℤ)
      → confirmations c ≡ pos need
      → need < 2 ^ 62
      → suc n < need
      → Seen n st
      → Seen (suc n) (confirm c st (current_mode c) (desired_mode c ks) now).1
  unfolding confirm next_count
  Seen-confirm need n st now conf small h s =
      rw (s.next, conf, ltb_pos (suc n) need h)
        (record {
          next =
              rw ((same_mode_iff (desired_mode c ks) (desired_mode c ks)).1 refl)
                (count_up (suc n) (omega arith));
          free = s.free;
        })

  Seen-ticks :
      (need n : ℕ) (st : State) (nows : List ℤ)
      → same_mode (desired_mode c ks) (current_mode c) ≡ false
      → confirmations c ≡ pos need
      → need < 2 ^ 62
      → n + length nows < need
      → Seen n st
      → Seen (n + length nows) (ticks c st ks nows)
  unfolding ticks
  Seen-ticks need n st [] wants conf small h s = rw add-zero s
  Seen-ticks need n st (now ∷ nows) wants conf small h s =
      subst (λ k. Seen k (ticks c (decide c st ks now).1 ks nows)) (omega arith)
        (Seen-ticks need (suc n) (decide c st ks now).1 nows wants conf small (omega arith) (
          rw (decide-confirm st now wants s.free)
            (Seen-confirm need n st now conf small (omega arith) s)))

  confirm_last :
      (need n : ℕ) (st : State) (now : ℤ)
      → confirmations c ≡ pos need
      → Seen n st
      → let d = (confirm c st (current_mode c) (desired_mode c ks) now).0 in
        (d.pending ≡ ltb (suc n) need)
        × (d.effective ≡ (if ltb (suc n) need then current_mode c else desired_mode c ks))
  unfolding confirm
  confirm_last need n st now conf s = rw (conf, s.next) (ground arith)

  -- Let the loop want a change that is not yet the candidate, and let the change be exempt from the
  -- cooldown or none have been stamped before. With `need` confirmations configured, fewer than 2^62,
  -- and the same health checks, after fewer than `need` ticks the next one is pending and keeps the
  -- mode, unless it completes the confirmations: then it is not pending and takes the wanted mode.
  pub decide-ticks :
      (need : ℕ) (st : State) (nows : List ℤ) (now : ℤ)
      → same_mode (desired_mode c ks) (current_mode c) ≡ false
      → same_mode st.candidate (desired_mode c ks) ≡ false
      → IsFree st
      → confirmations c ≡ pos need
      → need < 2 ^ 62
      → length nows < need
      → let d = (decide c (ticks c st ks nows) ks now).0 in
        (d.pending ≡ ltb (suc (length nows)) need)
        × (d.effective
            ≡ (if ltb (suc (length nows)) need then current_mode c else desired_mode c ks))
  unfolding next_count
  decide-ticks need st nows now wants new f conf small h =
      rw (decide-confirm (ticks c st ks nows) now wants seen.free)
        (confirm_last need (length nows) (ticks c st ks nows) now conf seen)
    where
      seen : Seen (length nows) (ticks c st ks nows)
      seen = rw zero-add at (
          Seen-ticks need 0 st nows wants conf small (omega arith)
            (record { next = rw new; free = f }))
