-- ===== src/Prelude/Texts.antt =====
-- Tests on texts: the native strings, compared whole.
use Prim.Native.String
use Prim.Native.String.{String}
use text.Mathlib.Text.{◌==◌}
use text.Mathlib.TextEquality.{eq_iff}
use text.Mathlib.TextPositions.{eq_refl}
use mathlib.Core.Path.{◌≡◌}
use mathlib.Core.Logic.{◌↔◌}
use mathlib.Core.Bool.{Bool, true}

abbrev pub str_eq : String → String → Bool
str_eq s t = s == t

abbrev pub is_empty : String → Bool
is_empty s = s == ""

-- `s + t`
abbrev pub append_text : String → String → String
append_text s t = String.◌++◌ s t

pub str_eq_iff : (s t : String) → (str_eq s t ≡ true) ↔ (s ≡ t)
str_eq_iff s t = eq_iff s t

pub str_eq_refl : (s : String) → str_eq s s ≡ true
str_eq_refl s = eq_refl s
