-- ===== src/Metrics/Ring.antt =====
-- The ring against the list of everything that was appended (internal/metrics/ringbuffer.go).
use mathlib.Core.List.{append_assoc, append-nil}
use native.Mathlib.Nat.{mod-eq_of_lt, mod-eq-sub-mod, mod-lt}
use zeroone.Prelude.{
  ℕ, zero, suc, ◌+◌, ◌-◌, ◌%◌, ◌<◌, ◌≤◌, ◌≡◌, ◌≢◌, refl, sym, ap, ◌∙◌, inl, inr, some, List, [],
  ◌∷◌, ◌++◌, arith, ltb, length, get_elem?, set, get_or, drop, replicate, length-set, length-append,
  get_elem?-set_self, get_elem?-set_ne, if◌then◌else◌, Bool-cases,
}
use zeroone.Prelude.Int.{ℤ, leb_ℤ}
use zeroone.Metrics.Defs.{
  Sample, Series, no_sample, new_series, append_sample, start_slot, collect, snapshot, append_all,
}

module _ {ℓ} {A : Type ℓ} where
  get_elem?-append_left :
      (xs ys : List A) (i : ℕ) → i < length xs → get_elem? (xs ++ ys) i ≡ get_elem? xs i
  get_elem?-append_left [] ys i h = absurd (omega arith)
  get_elem?-append_left (x ∷ xs) ys zero h = refl
  get_elem?-append_left (x ∷ xs) ys (suc i) h = get_elem?-append_left xs ys i (omega arith)

  get_elem?-append_last : (xs : List A) (x : A) → get_elem? (xs ++ x ∷ []) (length xs) ≡ some x
  get_elem?-append_last [] x = refl
  get_elem?-append_last (y ∷ xs) x = get_elem?-append_last xs x

  drop_cons :
      (xs : List A) (i : ℕ) {x : A} → get_elem? xs i ≡ some x → drop i xs ≡ x ∷ drop (suc i) xs
  drop_cons [] i h = cc
  drop_cons (x ∷ xs) zero h = cc
  drop_cons (x ∷ xs) (suc i) h = drop_cons xs i h

  get_elem?-some : (xs : List A) (i : ℕ) → i < length xs → (x : A) × (get_elem? xs i ≡ some x)
  get_elem?-some [] i h = absurd (omega arith)
  get_elem?-some (x ∷ xs) zero h = (x, refl)
  get_elem?-some (x ∷ xs) (suc i) h = get_elem?-some xs i (omega arith)

  get_or-some : (xs : List A) (i : ℕ) (d : A) {x : A} → get_elem? xs i ≡ some x → get_or xs i d ≡ x
  get_or-some [] i d h = cc
  get_or-some (x ∷ xs) zero d h = cc
  get_or-some (x ∷ xs) (suc i) d h = get_or-some xs i d h

  length-replicate : (n : ℕ) (a : A) → length (replicate n a) ≡ n
  length-replicate zero a = refl
  length-replicate (suc n) a = ap suc (length-replicate n a)

  drop-length : (xs : List A) → drop (length xs) xs ≡ []
  drop-length [] = refl
  drop-length (x ∷ xs) = drop-length xs

-- A position below twice the capacity, taken into the ring.
mod_wrap : (n m : ℕ) → n < m + m → n % m ≡ (if ltb n m then n else n - m)
mod_wrap n m h = elim (Bool-cases (ltb n m)) [
  | inl e ↦ rw e (mod-eq_of_lt (ground arith))
  | inr e ↦ rw e (mod-eq-sub-mod (ground arith) ∙ mod-eq_of_lt (ground arith))
]

-- Where the sample stands that was written `i` samples before the last one.
abbrev slot : (capacity write_idx i : ℕ) → ℕ
slot capacity write_idx i =
    if ltb i write_idx then write_idx - 1 - i else write_idx + capacity - 1 - i

slot_last : (m w : ℕ) → w < m → slot m ((w + 1) % m) 0 ≡ w
slot_last m w h = rw (mod_wrap (w + 1) m (omega arith)) (ground arith)

slot_before : (m w i : ℕ) → w < m → suc i < m → slot m ((w + 1) % m) (suc i) ≡ slot m w i
slot_before m w i h k = rw (mod_wrap (w + 1) m (omega arith)) (ground arith)

slot_other : (m w i : ℕ) → w < m → suc i < m → w ≢ slot m w i
slot_other m w i h k e = ground arith

-- The round of the loop that reads the sample `i` before the last one.
slot_round :
    (m w n i : ℕ)
    → w < m
    → n ≤ m
    → i < n
    → ((if ltb w n then w + m - n else w - n) + (n - suc i)) % m ≡ slot m w i
slot_round m w n i h k l =
    mod_wrap ((if ltb w n then w + m - n else w - n) + (n - suc i)) m (ground arith) ∙ ground arith

module _ {ℓ} {F : Type ℓ} where
  -- The ring holds the end of the list.
  record Holds (s : Series F) (xs : List (Sample F)) : Type ℓ where
    room : length s.samples ≡ s.capacity
    inside : s.write_idx < s.capacity
    counted : s.count ≡ (if ltb (length xs) s.capacity then length xs else s.capacity)
    kept :
        (i : ℕ)
        → i < s.count
        → get_elem? s.samples (slot s.capacity s.write_idx i) ≡ get_elem? xs (length xs - 1 - i)

  -- The samples that are not older than `since`.
  unfoldable pub not_older : ℤ → List (Sample F) → List (Sample F)
  not_older since [] = []
  not_older since (x ∷ xs) =
      let rest = not_older since xs in if leb_ℤ since x.timestamp then x ∷ rest else rest

  new_series-Holds : (capacity : ℕ) (step : ℤ) → 0 < capacity → Holds (new_series capacity step) []
  unfolding new_series
  new_series-Holds capacity step h = record {
    room = length-replicate capacity no_sample;
    inside = h;
    counted = ground arith;
    kept = λ i k. absurd (omega arith);
  }

  append_kept :
      (s : Series F) (xs : List (Sample F)) (x : Sample F)
      → Holds s xs
      → (i : ℕ) → i < (append_sample s x).count
      → get_elem? (set s.samples s.write_idx x) (slot s.capacity ((s.write_idx + 1) % s.capacity) i)
        ≡ get_elem? (xs ++ x ∷ []) (length (xs ++ x ∷ []) - 1 - i)
  unfolding append_sample
  append_kept s xs x h zero k =
      ap (get_elem? (set s.samples s.write_idx x)) (slot_last s.capacity s.write_idx h.inside)
      ∙ get_elem?-set_self s.samples s.write_idx x (rw h.room h.inside)
      ∙ sym (get_elem?-append_last xs x)
      ∙ ap (get_elem? (xs ++ x ∷ [])) (omega (arith, length-append xs (x ∷ [])))
  append_kept s xs x h (suc i) k =
      let old : i < s.count = ground (arith, h.counted) in
      let room : suc i < s.capacity = ground (arith, h.counted) in
      ap (get_elem? (set s.samples s.write_idx x))
        (slot_before s.capacity s.write_idx i h.inside room)
      ∙ get_elem?-set_ne s.samples x (slot_other s.capacity s.write_idx i h.inside room)
      ∙ h.kept i old
      ∙ sym (get_elem?-append_left xs (x ∷ []) (length xs - 1 - i) (ground (arith, h.counted)))
      ∙ ap (get_elem? (xs ++ x ∷ [])) (omega (arith, length-append xs (x ∷ [])))

  append_sample-Holds :
      (s : Series F) (xs : List (Sample F)) (x : Sample F)
      → Holds s xs
      → Holds (append_sample s x) (xs ++ x ∷ [])
  unfolding append_sample
  append_sample-Holds s xs x h = record {
    room = length-set s.samples s.write_idx x ∙ h.room;
    inside = mod-lt (s.write_idx + 1) (omega (arith, h.inside));
    counted = rw (length-append xs (x ∷ [])) (ground (arith, h.counted));
    kept = append_kept s xs x h;
  }

  append_all-Holds :
      (s : Series F) (xs ys : List (Sample F)) → Holds s xs → Holds (append_all s ys) (xs ++ ys)
  unfolding append_all
  append_all-Holds s xs [] h = rw append-nil h
  append_all-Holds s xs (y ∷ ys) h =
      rw (← append_assoc xs (y ∷ []) ys)
        (append_all-Holds (append_sample s y) (xs ++ y ∷ []) ys (append_sample-Holds s xs y h))

  -- The sample that a round of the loop reads.
  round_reads :
      (s : Series F) (xs : List (Sample F)) (rounds : ℕ)
      → Holds s xs
      → suc rounds ≤ s.count
      → get_elem? s.samples ((start_slot s + (s.count - suc rounds)) % s.capacity)
        ≡ get_elem? xs (length xs - suc rounds)
  unfolding start_slot
  round_reads s xs rounds h k =
      ap (get_elem? s.samples)
        (slot_round s.capacity s.write_idx s.count rounds h.inside (ground (arith, h.counted)) k)
      ∙ h.kept rounds k
      ∙ ap (get_elem? xs) (omega arith)

  collect-drop :
      (s : Series F) (xs : List (Sample F)) (since : ℤ) (rounds : ℕ)
      → Holds s xs
      → rounds ≤ s.count
      → collect s since rounds (s.count - rounds) ≡ not_older since (drop (length xs - rounds) xs)
  unfolding collect not_older
  collect-drop s xs since zero h k =
      let whole : length xs - 0 ≡ length xs = omega arith in
      sym (ap (λ i. not_older since (drop i xs)) whole ∙ ap (not_older since) (drop-length xs))
  collect-drop s xs since (suc rounds) h k =
      let (x, found) = get_elem?-some xs (length xs - suc rounds) (ground (arith, h.counted)) in
      let read =
        get_or-some s.samples ((start_slot s + (s.count - suc rounds)) % s.capacity) no_sample
          (round_reads s xs rounds h k ∙ found) in
      let next : suc (s.count - suc rounds) ≡ s.count - rounds = omega arith in
      let back : length xs - rounds ≡ suc (length xs - suc rounds) = ground (arith, h.counted) in
      let rest =
        ap (collect s since rounds) next
        ∙ collect-drop s xs since rounds h (omega arith)
        ∙ ap (λ i. not_older since (drop i xs)) back in
      rw (read, drop_cons xs (length xs - suc rounds) found, rest) refl

  Holds-snapshot :
      (s : Series F) (xs : List (Sample F)) (since : ℤ)
      → Holds s xs
      → snapshot s since ≡ not_older since (drop (length xs - s.capacity) xs)
  unfolding snapshot
  Holds-snapshot s xs since h =
      let from_start : 0 ≡ s.count - s.count = omega arith in
      let end : length xs - s.count ≡ length xs - s.capacity = ground (arith, h.counted) in
      ap (collect s since s.count) from_start
      ∙ collect-drop s xs since s.count h (omega arith)
      ∙ ap (λ i. not_older since (drop i xs)) end

  capacity-append_all :
      (s : Series F) (xs : List (Sample F)) → (append_all s xs).capacity ≡ s.capacity
  unfolding append_all append_sample
  capacity-append_all s [] = refl
  capacity-append_all s (x ∷ xs) = capacity-append_all (append_sample s x) xs

  -- In a series of a positive capacity, a snapshot is the last samples that were appended, as many as
  -- the capacity has room for, in the order in which they came and without those older than `since`.
  pub snapshot-append_all :
      (capacity : ℕ) (step : ℤ) (xs : List (Sample F)) (since : ℤ)
      → 0 < capacity
      → snapshot (append_all (new_series capacity step) xs) since
        ≡ not_older since (drop (length xs - capacity) xs)
  unfolding new_series
  snapshot-append_all capacity step xs since h =
      let s = append_all (new_series capacity step) xs in
      Holds-snapshot s xs since
        (append_all-Holds (new_series capacity step) [] xs (new_series-Holds capacity step h))
      ∙ ap (λ m. not_older since (drop (length xs - m) xs))
          (capacity-append_all (new_series capacity step) xs)
