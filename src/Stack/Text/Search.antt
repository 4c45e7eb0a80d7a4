-- ===== src/Stack/Text/Search.antt =====
-- One text in another, and the words of a text (Go's strings package).
use Prim.Native.Char.{Char}
use zeroone.Prelude.{String, Bool, true, none, some, List, [], ◌∷◌, is_empty, if◌then◌else◌}
use zeroone.Stack.Text.{cons, is_space, strip_prefix}

-- `strings.Contains`
unfoldable pub has_text : String → String → Bool
has_text needle String.[] = is_empty needle
has_text needle (String.◌∷◌ c s) =
    let rest = has_text needle s in
    elim (strip_prefix needle (String.◌∷◌ c s)) [ some after ↦ true | none ↦ rest ]

lengthen : Char → List String → List String
lengthen c [] = cons c String.[] ∷ []
lengthen c (w ∷ ws) = cons c w ∷ ws

drop_blank : List String → List String
drop_blank [] = []
drop_blank (w ∷ ws) = let rest = drop_blank ws in if is_empty w then rest else w ∷ rest

runs : String → List String
unfolding lengthen
runs String.[] = String.[] ∷ []
runs (String.◌∷◌ c s) =
    let rest = runs s in if is_space c then String.[] ∷ rest else lengthen c rest

-- `strings.Fields`
unfoldable pub words : String → List String
unfolding drop_blank runs
words s = drop_blank (runs s)
