-- ===== src/Plugins/Listen.antt =====
-- The listen address as a plugin reads it (internal/snispoof/config.go; internal/relay/config.go has
-- the same function).
use Prim.Native.Char.{Char, code}
use zeroone.Prelude.{
  ℕ, ◌≡◌, ◌≢◌, refl, ap, ◌∙◌, sym, inl, inr, ◌⊎◌, arith, String, Bool, true, false, Option, none,
  some, ◌==◌, ◌&&◌, ◌||◌, not, str_eq_iff, is_empty, if◌then◌else◌,
}
use zeroone.Prelude.Int.{ℤ}
use zeroone.Stack.Text.{cons, atoi, cut, cut_last, cut_cons, begins_with, has_char}
use zeroone.Stack.Rules.{bracketed, net_split_host_port, split_host_port, host_and_port}

is_end : String → Bool
is_end String.[] = true
is_end (String.◌∷◌ c s) = false

-- The text before a last `]`.
unfoldable before_end : String → Option String
unfolding is_end
before_end String.[] = none
before_end (String.◌∷◌ c s) = elim (before_end s) [
  | some inner ↦ some (cons c inner)
  | none ↦ if code c == b']' && is_end s then some String.[] else none
]

-- The host without the brackets around it.
unfoldable unbracket : String → String
unfolding before_end
unbracket String.[] = String.[]
unbracket (String.◌∷◌ c s) = elim (before_end s) [
  | some inner ↦ if code c == b'[' then inner else cons c s
  | none ↦ cons c s
]

or_loopback : String → String
or_loopback String.[] = "127.0.0.1"
or_loopback (String.◌∷◌ c s) = cons c s

-- `splitHostPort`; `none` stands for each of its errors.
unfoldable pub split_listen : String → Option (String × ℤ)
unfolding unbracket or_loopback
split_listen addr = elim (cut_last b':' addr) [
  | none ↦ none
  | some (host, port) ↦ host_and_port (unbracket (or_loopback host)) (atoi port)
]

cut_cons-some :
    (c : Char) (o : Option (String × String)) (a b : String)
    → cut_cons c o ≡ some (a, b)
    → (inner : String) × (o ≡ some (inner, b)) × (cons c inner ≡ a)
unfolding cut_cons
cut_cons-some c none a b e = cc
cut_cons-some c (some (inner, b)) a b' e = (inner, cc, cc)

pub if-yes {ℓ} : {A : Type ℓ} → (b : Bool) (x y : A) → b ≡ true → (if b then x else y) ≡ x
if-yes b x y h = rw h refl

if-cases {ℓ} :
    {A : Type ℓ}
    → (b : Bool) (x y : A) {z : A} → (if b then x else y) ≡ z
    → (b ≡ true) × (x ≡ z) ⊎ (b ≡ false) × (y ≡ z)
if-cases true x y e = inl (refl, e)
if-cases false x y e = inr (refl, e)

-- The two shapes of a cut.
cut-cases :
    (n : ℕ) (c : Char) (s : String) {o : Option (String × String)}
    → cut n (cons c s) ≡ o
    → ((code c == n) ≡ true) × (some (String.[], s) ≡ o)
      ⊎ ((code c == n) ≡ false) × (cut_cons c (cut n s) ≡ o)
unfolding cut
cut-cases n c s e = if-cases (code c == n) (some (String.[], s)) (cut_cons c (cut n s)) e

before_end-cons :
    (c : Char) (s inner : String)
    → before_end s ≡ some inner
    → before_end (cons c s) ≡ some (cons c inner)
unfolding before_end
before_end-cons c s inner e = simp (e, before_end)

before_end-last :
    (c : Char) (s inner : String)
    → (code c == b']') ≡ true
    → ◌≡◌ {A = Option (String × String)} (some (String.[], s)) (some (inner, String.[]))
    → before_end (cons c s) ≡ some inner
unfolding before_end is_end
before_end-last c String.[] inner same whole = rw (same, before_end) cc
before_end-last c (String.◌∷◌ d s) inner same whole = cc

cut-before_end :
    (s inner : String) → cut b']' s ≡ some (inner, String.[]) → before_end s ≡ some inner
unfolding before_end is_end cut
cut-before_end String.[] inner e = cc
cut-before_end (String.◌∷◌ c s) inner e = elim (cut-cases b']' c s e) [
  | inl (same, whole) ↦ before_end-last c s inner same whole
  | inr (other, later) ↦
      let (rest, cut_rest, whole) = cut_cons-some c (cut b']' s) inner String.[] later in
      before_end-cons c s rest (cut-before_end s rest cut_rest) ∙ ap some whole
]

unbracket-other : (s : String) → begins_with b'[' s ≡ false → unbracket s ≡ s
unfolding unbracket begins_with
unbracket-other String.[] h = refl
unbracket-other (String.◌∷◌ c s) h = ground (arith, h)

unbracket-inner :
    (c : Char) (s inner : String)
    → begins_with b'[' (cons c s) ≡ true
    → before_end s ≡ some inner
    → unbracket (cons c s) ≡ inner
unfolding unbracket begins_with
unbracket-inner c s inner h e = rw (e, unbracket) (if-yes _ inner (cons c s) h)

cut_last-begins_with :
    (m n : ℕ) (s host port : String)
    → cut_last n s ≡ some (host, port)
    → host ≢ String.[]
    → begins_with m host ≡ begins_with m s
unfolding cut_last begins_with
cut_last-begins_with m n String.[] host port e h = cc
cut_last-begins_with m n (String.◌∷◌ c s) host port e h = ground (arith, e, h)

pub option-cases {ℓ} : {A : Type ℓ} → (o : Option A) → (o ≡ none) ⊎ ((x : A) × (o ≡ some x))
option-cases none = inl refl
option-cases (some x) = inr (x, refl)

some-parts :
    {a b c d : String}
    → ◌≡◌ {A = Option (String × String)} (some (a, b)) (some (c, d))
    → (a ≡ c) × (b ≡ d)
some-parts e = (cc, cc)

no_rest :
    (after : String) (a b c : Bool)
    → (not (is_empty after) || a || b || c) ≡ false
    → after ≡ String.[]
no_rest after a b c h = (str_eq_iff after "").0 (ground (arith, h))

bracketed-inner :
    (c : Char) (s port host p : String)
    → bracketed (cons c s) port ≡ some (host, p)
    → (cut b']' s ≡ some (host, String.[])) × (port ≡ p)
unfolding bracketed
bracketed-inner c s port host p e = elim (option-cases (cut b']' s)) [
  | inl missing ↦ let whole : bracketed (cons c s) port ≡ none = rw (missing, bracketed) refl in cc
  | inr (x, found) ↦
      let odd =
        not (is_empty x.1) || has_char b'[' x.0 || has_char b'[' port || has_char b']' port in
      let whole : bracketed (cons c s) port ≡ (if odd then none else some (x.0, port)) =
        rw (found, bracketed) refl in
      elim (if-cases odd none (some (x.0, port)) (sym whole ∙ e)) [
        | inl (bad, none_some) ↦ cc
        | inr (good, same) ↦
            let (hosts, ports) = some-parts same in
            let ends = no_rest x.1 _ _ _ good in
            (found ∙ ap some (ap (λ a. (a, x.1)) hosts ∙ ap (λ b. (host, b)) ends), ports)
      ]
]

host_and_port-host :
    (h : String) (o : Option ℤ) (host : String) (port : ℤ)
    → host_and_port h o ≡ some (host, port)
    → h ≡ host
unfolding host_and_port
host_and_port-host h none host port e = cc
host_and_port-host h (some n) host port e = ground (arith, e)

-- What the plugin makes of the host that it cuts off.
unbracket-net :
    (addr raw p host port : String)
    → cut_last b':' addr ≡ some (raw, p)
    → (if begins_with b'[' addr
        then bracketed raw p
        else if has_char b':' raw || has_char b'[' addr || has_char b']' addr
        then none
        else some (raw, p))
      ≡ some (host, port)
    → host ≢ String.[]
    → (unbracket (or_loopback raw) ≡ host) × (p ≡ port)
unfolding or_loopback bracketed
unbracket-net addr String.[] p host port found e named =
    elim (if-cases (begins_with b'[' addr) _ _ e) [
      | inl (inner, inside) ↦ cc
      | inr (bare, outside) ↦ elim (if-cases _ none (some ("", p)) outside) [
        | inl (bad, none_some) ↦ cc
        | inr (good, same) ↦ absurd (named (sym (some-parts same).0))
      ]
    ]
unbracket-net addr (String.◌∷◌ c t) p host port found e named =
    let starts = cut_last-begins_with b'[' b':' addr (cons c t) p found (λ h. cc) in
    elim (if-cases (begins_with b'[' addr) _ _ e) [
      | inl (inner, inside) ↦
          let (found_end, ports) = bracketed-inner c t p host port inside in
          (unbracket-inner c t host (starts ∙ inner) (cut-before_end t host found_end), ports)
      | inr (bare, outside) ↦ elim (if-cases _ none (some (cons c t, p)) outside) [
        | inl (bad, none_some) ↦ cc
        | inr (good, same) ↦
            let (hosts, ports) = some-parts same in
            (unbracket-other (cons c t) (starts ∙ bare) ∙ hosts, ports)
      ]
    ]

net_split_host_port-listen :
    (addr host p : String)
    → net_split_host_port addr ≡ some (host, p)
    → host ≢ String.[]
    → split_listen addr ≡ host_and_port host (atoi p)
unfolding net_split_host_port split_listen
net_split_host_port-listen addr host p e named = elim (option-cases (cut_last b':' addr)) [
  | inl missing ↦
      let whole : net_split_host_port addr ≡ none = rw (missing, net_split_host_port) refl in cc
  | inr (x, found) ↦
      let whole : net_split_host_port addr ≡ (
          if begins_with b'[' addr
          then bracketed x.0 x.1
          else if has_char b':' x.0 || has_char b'[' addr || has_char b']' addr
          then none
          else some (x.0, x.1)) =
        rw (found, net_split_host_port) refl in
      let (inner, same) = unbracket-net addr x.0 x.1 host p found (sym whole ∙ e) named in
      rw (found, split_listen)
        (ap (λ h. host_and_port h (atoi x.1)) inner ∙ ap (λ q. host_and_port host (atoi q)) same)
]

-- Where `net.SplitHostPort` finds a host, the plugin reads the same address.
pub split_host_port-listen :
    (addr host : String) (port : ℤ)
    → split_host_port addr ≡ some (host, port)
    → host ≢ String.[]
    → split_listen addr ≡ some (host, port)
unfolding split_host_port
split_host_port-listen addr host port e named = elim (option-cases (net_split_host_port addr)) [
  | inl missing ↦ let whole : split_host_port addr ≡ none = rw (missing, split_host_port) refl in cc
  | inr (x, found) ↦
      let whole : split_host_port addr ≡ host_and_port x.0 (atoi x.1) =
        rw (found, split_host_port) refl in
      let same = host_and_port-host x.0 (atoi x.1) host port (sym whole ∙ e) in
      net_split_host_port-listen addr x.0 x.1 found (λ h. named (sym same ∙ h)) ∙ sym whole ∙ e
]
