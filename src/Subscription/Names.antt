-- ===== src/Subscription/Names.antt =====
-- The name of the file that a subscription is offered as (internal/subscription/server.go), on bytes.
use zeroone.Prelude.{
  ℕ, zero, suc, ◌≤◌, ◌≡◌, refl, ap, arith, Bool, true, false, not, ◌&&◌, ◌||◌, List, [], ◌∷◌, ◌==◌,
  leb, length, if◌then◌else◌, Bool-cases, inl, inr,
}

unfoldable pub is_plain : ℕ → Bool
is_plain c =
    (leb b'A' c && leb c b'Z')
    || (leb b'a' c && leb c b'z')
    || (leb b'0' c && leb c b'9')
    || c == b'.'
    || c == b'_'
    || c == b'-'

-- The loop, with the bytes that still fit.
unfoldable pub sanitise : ℕ → List ℕ → List ℕ
unfolding is_plain
sanitise zero cs = []
sanitise (suc n) [] = []
sanitise (suc n) (c ∷ cs) = (if is_plain c then c else b'_') ∷ sanitise n cs

abbrev pub is_edge : ℕ → Bool
is_edge c = c == b'.' || c == b'_' || c == b'-'

unfoldable pub trim_start : List ℕ → List ℕ
trim_start [] = []
trim_start (c ∷ cs) = let rest = trim_start cs in if is_edge c then rest else c ∷ cs

abbrev add_before : ℕ → List ℕ → List ℕ
add_before c [] = if is_edge c then [] else c ∷ []
add_before c (d ∷ ds) = c ∷ d ∷ ds

unfoldable pub trim_end : List ℕ → List ℕ
trim_end [] = []
trim_end (c ∷ cs) = add_before c (trim_end cs)

-- "subscription"
abbrev pub fallback_name : List ℕ
fallback_name =
    b's' ∷ b'u' ∷ b'b' ∷ b's' ∷ b'c' ∷ b'r' ∷ b'i' ∷ b'p' ∷ b't' ∷ b'i' ∷ b'o' ∷ b'n' ∷ []

abbrev or_fallback : List ℕ → List ℕ
or_fallback [] = fallback_name
or_fallback (c ∷ cs) = c ∷ cs

-- `safeAttachmentName`
unfoldable pub safe_attachment_name : List ℕ → List ℕ
safe_attachment_name s = or_fallback (trim_end (trim_start (sanitise 80 s)))

-- All bytes are plain.
abbrev pub AllPlain : List ℕ → Type 0
AllPlain [] = Unit {0}
AllPlain (c ∷ cs) = (is_plain c ≡ true) × AllPlain cs

-- The first byte and the last one are no edges.
abbrev pub starts_sharp : List ℕ → Bool
starts_sharp [] = true
starts_sharp (c ∷ cs) = not (is_edge c)

abbrev pub ends_sharp : List ℕ → Bool
ends_sharp [] = true
ends_sharp (c ∷ []) = not (is_edge c)
ends_sharp (c ∷ d ∷ ds) = ends_sharp (d ∷ ds)

sanitise-AllPlain : (n : ℕ) (cs : List ℕ) → AllPlain (sanitise n cs) × (length (sanitise n cs) ≤ n)
unfolding sanitise
sanitise-AllPlain zero cs = (tt, omega arith)
sanitise-AllPlain (suc n) [] = (tt, omega arith)
sanitise-AllPlain (suc n) (c ∷ cs) =
    let (plain, short) = sanitise-AllPlain n cs in ((ground arith, plain), omega arith)

trim_start-if :
    (b : Bool) (c : ℕ) (cs : List ℕ)
    → AllPlain (c ∷ cs)
    → is_edge c ≡ b
    → AllPlain (trim_start cs)
      × (length (trim_start cs) ≤ length cs)
      × (starts_sharp (trim_start cs) ≡ true)
    → let r = if b then trim_start cs else c ∷ cs in
      AllPlain r × (length r ≤ suc (length cs)) × (starts_sharp r ≡ true)
trim_start-if true c cs h e (plain, short, sharp) = (plain, omega arith, sharp)
trim_start-if false c cs h e more = (h, omega arith, ap not e)

trim_start-Plain :
    (cs : List ℕ)
    → AllPlain cs
    → AllPlain (trim_start cs)
      × (length (trim_start cs) ≤ length cs)
      × (starts_sharp (trim_start cs) ≡ true)
unfolding trim_start
trim_start-Plain [] h = (tt, omega arith, refl)
trim_start-Plain (c ∷ cs) h = trim_start-if (is_edge c) c cs h refl (trim_start-Plain cs h.1)

add_before-Plain :
    (c : ℕ) (x : List ℕ) (n : ℕ)
    → is_plain c ≡ true
    → AllPlain x
    → length x ≤ n
    → ends_sharp x ≡ true
    → AllPlain (add_before c x)
      × (length (add_before c x) ≤ suc n)
      × (ends_sharp (add_before c x) ≡ true)
add_before-Plain c [] n p h short sharp = elim (Bool-cases (is_edge c)) [
  | inl e ↦ rw e (tt, omega arith, refl)
  | inr e ↦ rw e ((p, tt), omega arith, ap not e)
]
add_before-Plain c (d ∷ ds) n p h short sharp = ((p, h), omega arith, sharp)

trim_end-Plain :
    (cs : List ℕ)
    → AllPlain cs
    → AllPlain (trim_end cs)
      × (length (trim_end cs) ≤ length cs)
      × (ends_sharp (trim_end cs) ≡ true)
unfolding trim_end
trim_end-Plain [] h = (tt, omega arith, refl)
trim_end-Plain (c ∷ cs) h =
    let (plain, short, sharp) = trim_end-Plain cs h.1 in
    add_before-Plain c (trim_end cs) (length cs) h.0 plain short sharp

add_before-starts :
    (c : ℕ) (x : List ℕ) → not (is_edge c) ≡ true → starts_sharp (add_before c x) ≡ true
add_before-starts c [] h = ground (arith, h)
add_before-starts c (d ∷ ds) h = h

trim_end-starts : (cs : List ℕ) → starts_sharp cs ≡ true → starts_sharp (trim_end cs) ≡ true
unfolding trim_end
trim_end-starts [] h = refl
trim_end-starts (c ∷ cs) h = add_before-starts c (trim_end cs) h

fallback-AllPlain : AllPlain fallback_name
unfolding is_plain sanitise
fallback-AllPlain = (sanitise-AllPlain 12 fallback_name).0

or_fallback-Plain :
    (cs : List ℕ)
    → AllPlain cs
    → length cs ≤ 80
    → starts_sharp cs ≡ true
    → ends_sharp cs ≡ true
    → let r = or_fallback cs in
      AllPlain r
      × (1 ≤ length r)
      × (length r ≤ 80)
      × (starts_sharp r ≡ true)
      × (ends_sharp r ≡ true)
or_fallback-Plain [] h short s e = (fallback-AllPlain, omega arith, omega arith, refl, refl)
or_fallback-Plain (c ∷ cs) h short s e = (h, omega arith, short, s, e)

-- A file name is harmless: whatever the bytes of the address, `safeAttachmentName` gives 1 to 80
-- bytes, each a letter, a digit, a point, a `_` or a `-`, and the first and the last one a letter or
-- a digit.
pub safe_attachment_name-Plain :
    (s : List ℕ)
    → let r = safe_attachment_name s in
      AllPlain r
      × (1 ≤ length r)
      × (length r ≤ 80)
      × (starts_sharp r ≡ true)
      × (ends_sharp r ≡ true)
unfolding safe_attachment_name
safe_attachment_name-Plain s =
    let (kept, short) = sanitise-AllPlain 80 s in
    let (begun, shorter, sharp) = trim_start-Plain (sanitise 80 s) kept in
    let (ended, shortest, end_sharp) = trim_end-Plain (trim_start (sanitise 80 s)) begun in
    or_fallback-Plain (trim_end (trim_start (sanitise 80 s))) ended (omega arith)
      (trim_end-starts (trim_start (sanitise 80 s)) sharp) end_sharp
