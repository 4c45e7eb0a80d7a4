-- ===== src/Stack/Text/Cuts.antt =====
-- Texts put together with a separator, and cut there again.
use Prim.Native.Char.{Char, code}
use text.Mathlib.TextLemmas.{nil-append, cons-append}
use zeroone.Prelude.{
  ℕ, ◌≡◌, refl, ap, ◌∙◌, arith, String, true, false, none, some, append_text, ◌==◌,
}
use zeroone.Stack.Text.{cons, has_char, cut_cons, cut, cut_last}

pub append_text-cons : (c : Char) (t : String) → append_text (cons c String.[]) t ≡ cons c t
append_text-cons c t = cons-append c String.[] t ∙ ap (cons c) (nil-append t)

-- The first separator, where none stands before it.
pub cut-append :
    (n : ℕ) (s : String) (c : Char) (t : String)
    → (code c == n) ≡ true
    → has_char n s ≡ false
    → cut n (append_text s (cons c t)) ≡ some (s, t)
unfolding cut has_char cut_cons
cut-append n String.[] c t e h = rw (nil-append (cons c t)) (simp (e, cut))
cut-append n (String.◌∷◌ d s) c t e h =
    let rest = cut-append n s c t e (ground arith) in
    let other : (code d == n) ≡ false = ground arith in
    rw (cons-append d s (cons c t)) (simp (other, rest, cut, cut_cons))

cut_last-none : (n : ℕ) (s : String) → has_char n s ≡ false → cut_last n s ≡ none
unfolding cut_last has_char
cut_last-none n String.[] h = refl
cut_last-none n (String.◌∷◌ c s) h =
    let rest = cut_last-none n s (ground arith) in
    let other : (code c == n) ≡ false = ground arith in simp (other, rest, cut_last)

-- The last separator, where none stands behind it.
pub cut_last-append :
    (n : ℕ) (s : String) (c : Char) (t : String)
    → (code c == n) ≡ true
    → has_char n t ≡ false
    → cut_last n (append_text s (cons c t)) ≡ some (s, t)
unfolding cut_last
cut_last-append n String.[] c t e h =
    rw (nil-append (cons c t)) (simp (cut_last-none n t h, e, cut_last))
cut_last-append n (String.◌∷◌ d s) c t e h =
    rw (cons-append d s (cons c t)) (simp (cut_last-append n s c t e h, cut_last))
