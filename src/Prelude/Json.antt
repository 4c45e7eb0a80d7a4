-- ===== src/Prelude/Json.antt =====
-- JSON values and objects, as Go's `map[string]any` builds them. The order of the keys stands for
-- nothing: a write replaces the entry of its key.
use mathlib.Core.Path.{◌≡◌, refl}
use mathlib.Core.Bool.{Bool}
use mathlib.Core.Option.{Option, none, some}
use mathlib.Core.List.{List, [], ◌∷◌}
use native.Mathlib.Omega.{arith}
use Prim.Native.String.{String}
use text.Mathlib.TextEquality.{eq_iff}
use zeroone.Prelude.Tests.{if◌then◌else◌}
use zeroone.Prelude.Texts.{str_eq}
use zeroone.Prelude.Int.{ℤ}

mutual
  pub data Json : Type 0 where
    str : String → Json
    number : ℤ → Json
    flag : Bool → Json
    array : Items → Json
    object : Object → Json

  pub data Items : Type 0 where
    nil : Items
    item : Json → Items → Items

  pub data Object : Type 0 where
    empty : Object
    entry : String → Json → Object → Object

abbrev pub fields : List (String × Json) → Object
fields [] = empty
fields ((k, v) ∷ kvs) = entry k v (fields kvs)

abbrev pub texts : List String → Items
texts [] = nil
texts (s ∷ ss) = item (str s) (texts ss)

abbrev pub objects : List Object → Items
objects [] = nil
objects (o ∷ os) = item (object o) (objects os)

abbrev pub get : String → Object → Option Json
get k empty = none
get k (entry j v o) = if str_eq j k then some v else get k o

-- `o[k] = v`
abbrev pub put : String → Json → Object → Object
put k v empty = entry k v empty
put k v (entry j w o) = if str_eq j k then entry k v o else entry j w (put k v o)

-- `if present { o[k] = v }`
abbrev pub put_some : String → Option Json → Object → Object
put_some k none o = o
put_some k (some v) o = put k v o

pub get-put :
    (j k : String) (v : Json) (o : Object)
    → get j (put k v o) ≡ (if str_eq k j then some v else get j o)
get-put j k v empty = refl
get-put j k v (entry i w o) = ground (arith, eq_iff i k, eq_iff k j, eq_iff i j, get-put j k v o)
