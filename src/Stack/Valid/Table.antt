-- ===== src/Stack/Valid/Table.antt =====
-- The table of ports that `Validate` fills (internal/stack/config.go).
use zeroone.Prelude.{◌≡◌, ◌⊎◌, inl, inr, refl, Bool, false, ◌||◌, none, List, [], ◌∷◌, map, arith}
use zeroone.Prelude.Int.{ℤ, pos, eqb_ℤ}
use zeroone.Prelude.Result.{ok, ◌>>=◌, >>=-eq-ok}
use zeroone.Stack.Rules.{Owner, Checked, owner_of, add_port}
use zeroone.Stack.Validate.{Ports}

-- `ports` by a row of `addPort`.
unfoldable pub add_all : Ports → Ports → Checked Ports
add_all [] ps = ok ps
add_all ((p, o) ∷ xs) ps = do qs ← add_port p o ps; add_all xs qs

abbrev pub occurs : ℤ → List ℤ → Bool
occurs p [] = false
occurs p (q ∷ qs) = eqb_ℤ q p || occurs p qs

-- A port of the list that is not 0 does not occur behind itself.
abbrev pub Apart : List ℤ → Type 0
Apart [] = Unit {0}
Apart (p ∷ ps) = ((p ≡ pos 0) ⊎ (occurs p ps ≡ false)) × Apart ps

-- The ports of the list are 0 or not in the table.
abbrev Clear : Ports → Ports → Type 0
Clear [] ps = Unit {0}
Clear ((p, o) ∷ xs) ps = ((p ≡ pos 0) ⊎ (owner_of p ps ≡ none)) × Clear xs ps

abbrev Added : ℤ → Owner → Ports → Ports → Type 0
Added p o ps qs =
    ((p ≡ pos 0) × (qs ≡ ps))
    ⊎ ((eqb_ℤ p (pos 0) ≡ false) × (owner_of p ps ≡ none) × (qs ≡ (p, o) ∷ ps))

add_port-Added :
    (p : ℤ) (o : Owner) (ps : Ports) {qs : Ports} → add_port p o ps ≡ ok qs → Added p o ps qs
unfolding add_port
add_port-Added p o ps h = ground arith

claim-tail :
    (p q : ℤ) (o : Owner) (ps : Ports)
    → eqb_ℤ p (pos 0) ≡ false
    → (q ≡ pos 0) ⊎ (owner_of q ((p, o) ∷ ps) ≡ none)
    → ((q ≡ pos 0) ⊎ (owner_of q ps ≡ none)) × (eqb_ℤ q p ≡ false)
unfolding owner_of
claim-tail p q o ps e h = ground arith

Clear-tail :
    (xs : Ports) (p : ℤ) (o : Owner) (ps : Ports)
    → eqb_ℤ p (pos 0) ≡ false
    → Clear xs ((p, o) ∷ ps)
    → Clear xs ps × (occurs p (map (λ x. x.0) xs) ≡ false)
unfolding owner_of
Clear-tail [] p o ps e h = (tt, refl)
Clear-tail ((q, r) ∷ xs) p o ps e h =
    let (clear, free) = Clear-tail xs p o ps e h.1 in
    (((claim-tail p q o ps e h.0).0, clear), rw ((claim-tail p q o ps e h.0).1, free))

pub add_all-Apart :
    (xs ps : Ports) {qs : Ports} → add_all xs ps ≡ ok qs → Apart (map (λ x. x.0) xs) × Clear xs ps
unfolding add_all
add_all-Apart [] ps h = (tt, tt)
add_all-Apart ((p, o) ∷ xs) ps h =
    let (rs, added, rest) = >>=-eq-ok (add_port p o ps) (add_all xs) h in
    let (apart, clear) = add_all-Apart xs rs rest in
    elim (add_port-Added p o ps added) [
      | inl (zero_port, same) ↦ ((inl zero_port, apart), (inl zero_port, rw same at clear))
      | inr (e, free, grew) ↦
          let (c, f) = Clear-tail xs p o ps e (rw grew at clear) in ((inr f, apart), (inr free, c))
    ]
