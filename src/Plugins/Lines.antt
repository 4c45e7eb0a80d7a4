-- ===== src/Plugins/Lines.antt =====
-- The last lines of the relay's log, and the events that are kept (internal/relay/supervisor.go, state.go).
use Prim.Native.Char.{Char, code}
use zeroone.Prelude.{ℕ, ◌-◌, String, List, [], ◌∷◌, ◌==◌, leb, length, drop, if◌then◌else◌}
use zeroone.Stack.Text.{cons}

-- One character before the first line.
abbrev pub before_lines : Char → List String → List String
before_lines c [] = cons c String.[] ∷ []
before_lines c (l ∷ ls) = cons c l ∷ ls

-- `splitLines`
unfoldable pub split_lines : String → List String
split_lines String.[] = []
split_lines (String.◌∷◌ c s) =
    let rest = split_lines s in if code c == b'\n' then String.[] ∷ rest else before_lines c rest

-- The end of `Tail`.
unfoldable pub last_lines : ℕ → List String → List String
last_lines n ls = if leb (length ls) n then ls else drop (length ls - n) ls
