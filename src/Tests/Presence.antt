-- ===== src/Tests/Presence.antt =====
-- An example of the sightings.
use zeroone.Prelude.{◌≡◌, refl, false, List, [], ◌∷◌}
use zeroone.Prelude.Int.{pos}
use zeroone.Presence.{Tracker, Sighting, entry_of, touch_all, latest, last_seen-touch_all}

abbrev tracker : Tracker
tracker = record {
  entries = ("ann", record { last_seen = pos 5; last_ip = "192.0.2.7" }) ∷ [];
  dirty = false;
}

abbrev sightings : List Sighting
sightings =
    record { email = "ann"; at = pos 9; ip = "" }
    ∷ record { email = "bob"; at = pos 8; ip = "192.0.2.8" }
    ∷ record { email = "ann"; at = pos 7; ip = "192.0.2.9" }
    ∷ []

last_seen-touch_all_example :
    (entry_of "ann" (touch_all tracker sightings)).last_seen
    ≡ latest "ann" (entry_of "ann" tracker).last_seen sightings
last_seen-touch_all_example = last_seen-touch_all tracker sightings "ann" refl
