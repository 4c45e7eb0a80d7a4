-- ===== src/Presence.antt =====
-- When each user was last seen (internal/presence/presence.go): the tracker's entries, without its
-- lock and its file.
use zeroone.Prelude.{
  String, Bool, true, false, ◌≡◌, refl, ap, ◌∙◌, List, [], ◌∷◌, str_eq, str_eq_iff, str_eq_refl,
  is_empty, inl, inr, Bool-cases, if◌then◌else◌,
}
use zeroone.Prelude.Int.{ℤ, pos, ltb_ℤ}
use zeroone.Prelude.Assoc.{get_or, insert, get_or-insert}

pub record Entry : Type 0 where
  pub last_seen : ℤ
  pub last_ip : String

pub record Tracker : Type 0 where
  pub entries : List (String × Entry)
  pub dirty : Bool

abbrev pub never : Entry
never = record { last_seen = pos 0; last_ip = "" }

abbrev pub entry_of : String → Tracker → Entry
entry_of email t = get_or never email t.entries

abbrev pub seen_at : Entry → ℤ → String → Entry
seen_at cur at ip = record { last_seen = at; last_ip = if is_empty ip then cur.last_ip else ip }

-- `Touch`
unfoldable pub touch : Tracker → String → ℤ → String → Tracker
touch t email at ip =
    if is_empty email
    then t
    else if ltb_ℤ (entry_of email t).last_seen at
    then record {
      entries = insert email (seen_at (entry_of email t) at ip) t.entries;
      dirty = true;
    }
    else t

-- One sighting: whom, when and where.
pub record Sighting : Type 0 where
  pub email : String
  pub at : ℤ
  pub ip : String

unfoldable pub touch_all : Tracker → List Sighting → Tracker
touch_all t [] = t
touch_all t (s ∷ ss) = touch_all (touch t s.email s.at s.ip) ss

-- The latest of a time and the sightings of an e-mail address.
unfoldable pub latest : String → ℤ → List Sighting → ℤ
latest email best [] = best
latest email best (s ∷ ss) =
    latest email (if str_eq s.email email then (if ltb_ℤ best s.at then s.at else best) else best)
      ss

last_seen-touch_self :
    (t : Tracker) (email : String) (at : ℤ) (ip : String)
    → is_empty email ≡ false
    → (entry_of email (touch t email at ip)).last_seen
      ≡ (if ltb_ℤ (entry_of email t).last_seen at then at else (entry_of email t).last_seen)
unfolding touch
last_seen-touch_self t email at ip named =
    elim (Bool-cases (ltb_ℤ (entry_of email t).last_seen at)) [
      | inl e ↦ rw (named, e, get_or-insert, str_eq_refl email) refl
      | inr e ↦ rw (named, e) refl
    ]

entry_of-touch_other :
    (t : Tracker) (who : String) (at : ℤ) (ip email : String)
    → str_eq who email ≡ false
    → entry_of email (touch t who at ip) ≡ entry_of email t
unfolding touch
entry_of-touch_other t who at ip email other = elim (Bool-cases (is_empty who)) [
  | inl e ↦ rw e refl
  | inr e ↦ elim (Bool-cases (ltb_ℤ (entry_of who t).last_seen at)) [
    | inl l ↦ rw (e, l, get_or-insert, other) refl
    | inr l ↦ rw (e, l) refl
  ]
]

last_seen-touch :
    (t : Tracker) (who : String) (at : ℤ) (ip email : String)
    → is_empty email ≡ false
    → (entry_of email (touch t who at ip)).last_seen ≡ (
        if str_eq who email
        then (if ltb_ℤ (entry_of email t).last_seen at then at else (entry_of email t).last_seen)
        else (entry_of email t).last_seen)
last_seen-touch t who at ip email named = elim (Bool-cases (str_eq who email)) [
  | inl e ↦ rw (e, (str_eq_iff who email).0 e) (last_seen-touch_self t email at ip named)
  | inr e ↦ rw (e, entry_of-touch_other t who at ip email e) refl
]

-- After any sightings, in any order, a user with an e-mail address that is not empty was last seen at
-- the latest of its own sightings and of what the tracker had.
pub last_seen-touch_all :
    (t : Tracker) (ss : List Sighting) (email : String)
    → is_empty email ≡ false
    → (entry_of email (touch_all t ss)).last_seen ≡ latest email (entry_of email t).last_seen ss
unfolding touch_all latest
last_seen-touch_all t [] email named = refl
last_seen-touch_all t (s ∷ ss) email named =
    last_seen-touch_all (touch t s.email s.at s.ip) ss email named
    ∙ ap (λ best. latest email best ss) (last_seen-touch t s.email s.at s.ip email named)
