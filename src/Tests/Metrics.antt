-- ===== src/Tests/Metrics.antt =====
-- An example of the ring of samples.
use zeroone.Prelude.{ℕ, ◌-◌, ◌≡◌, arith, List, [], ◌∷◌, length, drop}
use zeroone.Prelude.Int.{pos}
use zeroone.Metrics.{Sample, new_series, append_all, snapshot}
use zeroone.Metrics.Ring.{not_older, snapshot-append_all}

abbrev at_time : ℕ → Sample ℕ
at_time t = record { timestamp = pos t; values = ("cpu", t) ∷ [] }

abbrev four : List (Sample ℕ)
four = at_time 1 ∷ at_time 2 ∷ at_time 3 ∷ at_time 4 ∷ []

snapshot-append_all_example :
    snapshot (append_all (new_series 3 (pos 5)) four) (pos 3)
    ≡ not_older (pos 3) (drop (length four - 3) four)
snapshot-append_all_example = snapshot-append_all 3 (pos 5) four (pos 3) (omega arith)
