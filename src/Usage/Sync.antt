-- ===== src/Usage/Sync.antt =====
-- What a sync credits to each user (internal/usage/usage.go).
use zeroone.Prelude.{
  ℕ, ◌+◌, ◌^◌, ◌<◌, ◌≡◌, refl, ap, ap₂, ◌∙◌, String, false, ◌||◌, Option, none, some, [], ◌∷◌,
  arith, ltb, ◌-◌, str_eq, str_eq_iff, str_eq_refl, Bool-cases, inl, inr, if◌then◌else◌,
}
use zeroone.Prelude.Int.{ℤ, pos, ltb_ℤ, ◌+ℤ◌, ◌-ℤ◌}
use zeroone.Prelude.Assoc.{lookup, get_or-insert}
use zeroone.Usage.Defs.{
  Pair, Pairs, UserState, no_pair, pair_of, delta, add_positive, add_pair, credit, credit_user,
  sync_user, sync_all, sync_users,
}

-- A counter value or total far from the 64-bit limit.
abbrev pub IsCounter : ℕ → Type 0
IsCounter n = n < 2 ^ 62

-- The total after a reading `cur` behind the reading `last`: the growth, or all of a counter that
-- started again.
abbrev pub grown : ℕ → ℕ → ℕ → ℕ
grown total last cur = if ltb cur last then total + cur else total + cur - last

delta-grown :
    (total last cur : ℕ)
    → IsCounter total
    → IsCounter last
    → IsCounter cur
    → add_positive (pos total) (delta (pos cur) (pos last)) ≡ pos (grown total last cur)
unfolding delta ◌+ℤ◌ ◌-ℤ◌
delta-grown total last cur h k l = ground arith

-- The four counters of a user.
pub data Counter : Type 0 where
  total daily weekly monthly : Counter

abbrev pub counters : Counter → UserState → Pairs
counters total st = st.totals
counters daily st = st.daily
counters weekly st = st.weekly
counters monthly st = st.monthly

-- A counter after the reading `cur` behind the reading `last`.
abbrev pub credited : Pair → Pair → Pair → Pair
credited p last cur = add_pair p (delta cur.uplink last.uplink) (delta cur.downlink last.downlink)

add_pair_nothing :
    (p : Pair) (du dd : ℤ) → ltb_ℤ (pos 0) du || ltb_ℤ (pos 0) dd ≡ false → add_pair p du dd ≡ p
unfolding add_pair
add_pair_nothing p du dd h = ground arith

credit_lem :
    (j email : String) (du dd : ℤ) (m : Pairs)
    → pair_of j (credit email du dd m)
      ≡ (if str_eq email j then add_pair (pair_of j m) du dd else pair_of j m)
unfolding credit
credit_lem j email du dd m = elim (Bool-cases (str_eq email j)) [
  | inl e ↦
      rw (
        get_or-insert no_pair j email (add_pair (pair_of email m) du dd) m,
        (str_eq_iff email j).0 e,
      )
  | inr e ↦ rw (get_or-insert no_pair j email (add_pair (pair_of email m) du dd) m, e)
]

counters-credit_user :
    (k : Counter) (j email : String) (st : UserState) (du dd : ℤ)
    → pair_of j (counters k (credit_user st email du dd)) ≡ (
        if str_eq email j
        then add_pair (pair_of j (counters k st)) du dd
        else pair_of j (counters k st))
unfolding credit_user
counters-credit_user total j email st du dd =
    ground (arith, add_pair_nothing (pair_of j st.totals) du dd, credit_lem j email du dd st.totals)
counters-credit_user daily j email st du dd =
    ground (arith, add_pair_nothing (pair_of j st.daily) du dd, credit_lem j email du dd st.daily)
counters-credit_user weekly j email st du dd =
    ground (arith, add_pair_nothing (pair_of j st.weekly) du dd, credit_lem j email du dd st.weekly)
counters-credit_user monthly j email st du dd =
    ground
      (arith, add_pair_nothing (pair_of j st.monthly) du dd, credit_lem j email du dd st.monthly)

last_raw-credit_user :
    (st : UserState) (email : String) (du dd : ℤ)
    → (credit_user st email du dd).last_raw ≡ st.last_raw
unfolding credit_user
last_raw-credit_user st email du dd = ground arith

counters_shut :
    (k : Counter) (st : UserState) (raw : Pairs)
    → counters k (record st { last_raw = raw }) ≡ counters k st
counters_shut total st raw = refl
counters_shut _ st raw = refl

-- A reading of one user, at every user `j`.
counters-sync_user :
    (k : Counter) (j email : String) (st : UserState) (cur : Pair)
    → pair_of j (counters k (sync_user st email cur)) ≡ (
        if str_eq email j
        then credited (pair_of j (counters k st)) (pair_of j st.last_raw) cur
        else pair_of j (counters k st))
unfolding sync_user
counters-sync_user k j email st cur = elim (Bool-cases (str_eq email j)) [
  | inl e ↦
      rw (e, (str_eq_iff email j).0 e)
        (ap (pair_of j) (counters_shut k _ _)
          ∙ counters-credit_user k j j st _ _
          ∙ rw (str_eq_refl j))
  | inr e ↦
      rw e (ap (pair_of j) (counters_shut k _ _) ∙ counters-credit_user k j email st _ _ ∙ rw e)
]

last_raw-sync_user :
    (j email : String) (st : UserState) (cur : Pair)
    → pair_of j (sync_user st email cur).last_raw
      ≡ (if str_eq email j then cur else pair_of j st.last_raw)
unfolding sync_user
last_raw-sync_user j email st cur =
    get_or-insert no_pair j email cur _
    ∙ ap (λ m. if str_eq email j then cur else pair_of j m) (last_raw-credit_user st email _ _)

abbrev pub Distinct : Pairs → Type 0
Distinct [] = Unit {0}
Distinct ((email, cur) ∷ raw) = (lookup email raw ≡ none) × Distinct raw

-- What a list of readings does to the counter and the last reading of one user.
abbrev pub read : Option Pair → Pair → Pair → Pair
read none p last = p
read (some cur) p last = credited p last cur

abbrev pub last_read : Option Pair → Pair → Pair
last_read none last = last
last_read (some cur) last = cur

abbrev Reads : Counter → String → UserState → Pairs → UserState → Type 0
Reads k j st raw next =
    (pair_of j (counters k next)
      ≡ read (lookup j raw) (pair_of j (counters k st)) (pair_of j st.last_raw))
    × (pair_of j next.last_raw ≡ last_read (lookup j raw) (pair_of j st.last_raw))

sync_all-Reads :
    (k : Counter) (j : String) (st : UserState) (raw : Pairs)
    → Distinct raw
    → Reads k j st raw (sync_all st raw)
unfolding sync_all lookup
sync_all-Reads k j st [] h = (refl, refl)
sync_all-Reads k j st ((email, cur) ∷ raw) h =
    let (counter, last) = sync_all-Reads k j (sync_user st email cur) raw h.1 in
    elim (Bool-cases (str_eq email j)) [
      | inl e ↦
          let gone : lookup j raw ≡ none = rw (← (str_eq_iff email j).0 e) h.0 in
          rw e (
            counter ∙ rw gone (counters-sync_user k j email st cur ∙ rw e),
            last ∙ rw gone (last_raw-sync_user j email st cur ∙ rw e),
          )
      | inr e ↦
          let here = counters-sync_user k j email st cur ∙ rw e in
          let there = last_raw-sync_user j email st cur ∙ rw e in
          rw e (
            counter ∙ ap₂ (read (lookup j raw)) here there,
            last ∙ ap (last_read (lookup j raw)) there,
          )
    ]

-- A sync over a map of counters credits every counter (total, daily, weekly, monthly) of each user
-- with that user's own reading alone, whatever the order of the map, and takes the reading as the
-- last one; a user without a reading keeps both.
pub sync_users-read :
    (k : Counter) (j : String) (st : UserState) (raw : Pairs) (now : ℤ)
    → Distinct raw
    → let next = sync_users st raw now in
      (pair_of j (counters k next)
        ≡ read (lookup j raw) (pair_of j (counters k st)) (pair_of j st.last_raw))
      × (pair_of j next.last_raw ≡ last_read (lookup j raw) (pair_of j st.last_raw))
unfolding sync_users
sync_users-read k j st raw now h =
    (ap (pair_of j) (stamp k) ∙ (sync_all-Reads k j st raw h).0, (sync_all-Reads k j st raw h).1)
  where
    stamp :
        (k : Counter)
        → counters k (record (sync_all st raw) { updated_at = now }) ≡ counters k (sync_all st raw)
    stamp total = refl
    stamp _ = refl

pub record IsPair (p : Pair) (up down : ℕ) : Type 0 where
  pub uplink : p.uplink ≡ pos up
  pub downlink : p.downlink ≡ pos down

-- For counters that `IsCounter` bounds, in each direction: a counter grows by what the reading grew,
-- and by all of the reading where Xray's counter fell and so started again; nothing wraps.
pub credited-grown :
    (p last cur : Pair) {a b c d e f : ℕ}
    → IsPair p a b
    → IsPair last c d
    → IsPair cur e f
    → IsCounter a
    → IsCounter b
    → IsCounter c
    → IsCounter d
    → IsCounter e
    → IsCounter f
    → IsPair (credited p last cur) (grown a c e) (grown b d f)
unfolding add_pair
credited-grown p last cur {a} {b} {c} {d} {e} {f} hp hl hc ha hb hcc hd he hf = record {
  uplink = rw (hp.uplink, hl.uplink, hc.uplink) (delta-grown a c e ha hcc he);
  downlink = rw (hp.downlink, hl.downlink, hc.downlink) (delta-grown b d f hb hd hf);
}
