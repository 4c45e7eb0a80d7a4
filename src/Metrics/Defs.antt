-- ===== src/Metrics/Defs.antt =====
-- internal/metrics/ringbuffer.go, without its lock. `F` is `float64`. The capacity is positive, as
-- both callers have it: with none, the source's `Append` panics.
use zeroone.Prelude.{
  ℕ, zero, suc, ◌+◌, ◌-◌, ◌%◌, String, List, [], ◌∷◌, ltb, set, get_or, replicate, if◌then◌else◌,
}
use zeroone.Prelude.Int.{ℤ, pos, leb_ℤ}

-- `Sample`
pub record Sample {ℓ} (F : Type ℓ) : Type ℓ where
  pub timestamp : ℤ
  pub values : List (String × F)

-- `Series`; the field `cap` is `capacity`
pub record Series {ℓ} (F : Type ℓ) : Type ℓ where
  pub capacity : ℕ
  pub step : ℤ
  pub samples : List (Sample F)
  pub write_idx : ℕ
  pub count : ℕ

module _ {ℓ} {F : Type ℓ} where
  abbrev pub no_sample : Sample F
  no_sample = record { timestamp = pos 0; values = [] }

  unfoldable pub new_series : ℕ → ℤ → Series F
  new_series capacity step = record {
    capacity = capacity;
    step = step;
    samples = replicate capacity no_sample;
    write_idx = 0;
    count = 0;
  }

  unfoldable pub append_sample : Series F → Sample F → Series F
  append_sample s x = record s {
    samples = set s.samples s.write_idx x;
    write_idx = (s.write_idx + 1) % s.capacity;
    count = if ltb s.count s.capacity then suc s.count else s.count;
  }

  -- `writeIdx - count`, plus the capacity where that is negative.
  unfoldable pub start_slot : Series F → ℕ
  start_slot s =
      if ltb s.write_idx s.count then s.write_idx + s.capacity - s.count else s.write_idx - s.count

  -- The rounds of the loop from `i` on.
  unfoldable pub collect : Series F → ℤ → (rounds i : ℕ) → List (Sample F)
  unfolding start_slot
  collect s since zero i = []
  collect s since (suc rounds) i =
      let x = get_or s.samples ((start_slot s + i) % s.capacity) no_sample in
      let rest = collect s since rounds (suc i) in
      if leb_ℤ since x.timestamp then x ∷ rest else rest

  unfoldable pub snapshot : Series F → ℤ → List (Sample F)
  snapshot s since = collect s since s.count 0

  unfoldable pub append_all : Series F → List (Sample F) → Series F
  append_all s [] = s
  append_all s (x ∷ xs) = append_all (append_sample s x) xs
