-- ===== src/Stack/Mutate/FreePort.antt =====
-- What `NextBandwidthPort` finds (internal/stack/mutate.go).
use zeroone.Prelude.{
  ℕ, zero, suc, ◌+◌, ◌<◌, ◌≤◌, ◌≡◌, ◌⊎◌, inl, inr, refl, sym, ◌∙◌, leb, true, false, ◌||◌, Option,
  none, some, List, [], ◌∷◌, arith, Bool-cases,
}
use zeroone.Prelude.Int.{ℤ, pos, eqb_ℤ}
use zeroone.Stack.Defs.{Config}
use zeroone.Stack.Mutate.Ports.{
  add_used, add_all_used, is_used, counted_ports, first_free, next_bandwidth_port,
}

-- The ports from `port` up to, and without, `p` are all used.
abbrev pub AllUsed : List ℤ → ℕ → ℕ → Type 0
AllUsed used port p = (q : ℕ) → port ≤ q → q < p → is_used (pos q) used ≡ true

-- What a search over `rounds` ports from `port` on answers.
abbrev pub Found : List ℤ → ℕ → ℕ → Option ℕ → Type 0
Found used port rounds r =
    ((r ≡ none) × AllUsed used port (port + rounds))
    ⊎ ((p : ℕ) × (r ≡ some p)
        × (port ≤ p)
        × (p < port + rounds)
        × (is_used (pos p) used ≡ false)
        × AllUsed used port p)

AllUsed-here :
    (used : List ℤ) (port p : ℕ)
    → is_used (pos port) used ≡ true
    → AllUsed used (suc port) p
    → AllUsed used port p
AllUsed-here used port p e all q low high = elim (Bool-cases (leb (suc port) q)) [
  | inl above ↦ all q (ground arith) high
  | inr same ↦ let eq : q ≡ port = ground arith in rw eq e
]

first_free-Found :
    (rounds port : ℕ) (used : List ℤ) → Found used port rounds (first_free rounds port used)
unfolding first_free
first_free-Found zero port used = inl (refl, λ q low high. absurd (omega arith))
first_free-Found (suc rounds) port used = elim (Bool-cases (is_used (pos port) used)) [
  | inl e ↦ elim (first_free-Found rounds (suc port) used) [
    | inl (gone, all) ↦ inl (
      rw e gone,
      AllUsed-here used port (port + suc rounds) e (λ q low high. all q low (omega arith)),
    )
    | inr (p, found, low, high, free, all) ↦
        inr (p, rw e found, omega arith, omega arith, free, AllUsed-here used port p e all)
  ]
  | inr e ↦ inr (port, rw e, omega arith, omega arith, e, λ q low high. absurd (omega arith))
]

is_used-add_used :
    (n : ℕ) (p : ℤ) (ps : List ℤ)
    → is_used (pos (suc n)) (add_used p ps) ≡ (eqb_ℤ p (pos (suc n)) || is_used (pos (suc n)) ps)
unfolding add_used is_used
is_used-add_used n p ps = ground arith

-- The table has the positive ports that were added, and no others.
is_used-add_all_used :
    (n : ℕ) (qs : List ℤ) → is_used (pos (suc n)) (add_all_used qs []) ≡ is_used (pos (suc n)) qs
unfolding add_all_used is_used
is_used-add_all_used n [] = refl
is_used-add_all_used n (q ∷ qs) =
    is_used-add_used n q (add_all_used qs []) ∙ rw (is_used-add_all_used n qs)

counted :
    (used qs : List ℤ) (q : ℕ)
    → ((n : ℕ) → is_used (pos (suc n)) used ≡ is_used (pos (suc n)) qs)
    → 0 < q
    → is_used (pos q) used ≡ is_used (pos q) qs
counted used qs zero h k = absurd (omega arith)
counted used qs (suc n) h k = h n

Found-counted :
    (used qs : List ℤ) (r : Option ℕ)
    → ((n : ℕ) → is_used (pos (suc n)) used ≡ is_used (pos (suc n)) qs)
    → Found used 21000 1000 r
    → Found qs 21000 1000 r
Found-counted used qs r h (inl (gone, all)) =
    inl (gone, λ q low high. sym (counted used qs q h (omega arith)) ∙ all q low high)
Found-counted used qs r h (inr (p, found, low, high, free, all)) = inr (
  p,
  found,
  low,
  high,
  sym (counted used qs p h (omega arith)) ∙ free,
  λ q low high. sym (counted used qs q h (omega arith)) ∙ all q low high,
)

-- The port is the first from 21000 to 21999 that no listener, no public SOCKS inbound and no user's
-- bandwidth limit has; there is none exactly if all 1000 are taken.
pub next_bandwidth_port-Found :
    (c : Config) → Found (counted_ports c) 21000 1000 (next_bandwidth_port c)
unfolding next_bandwidth_port
next_bandwidth_port-Found c =
    Found-counted (add_all_used (counted_ports c) []) (counted_ports c) _
      (λ n. is_used-add_all_used n (counted_ports c))
      (first_free-Found 1000 21000 (add_all_used (counted_ports c) []))
