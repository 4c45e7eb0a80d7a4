-- ===== src/Tests/Sessions.antt =====
-- An example of the session limits.
use zeroone.Prelude.{true, [], ◌∷◌}
use zeroone.Prelude.Int.{pos}
use zeroone.Stack.{User}
use zeroone.Stack.Valid.Unique.{Unique}
use zeroone.Enforce.Sessions.{OnlineUser}
use zeroone.Tests.Samples.{user_of}

abbrev bob : User
bob = user_of "bob" true (pos 0) (pos 0)

abbrev three_places : OnlineUser
three_places = record {
  email = "bob";
  ip_details =
      record { ip = "192.0.2.7"; last_seen = pos 30 }
      ∷ record { ip = "192.0.2.8"; last_seen = pos 20 }
      ∷ record { ip = "192.0.2.9"; last_seen = pos 10 }
      ∷ [];
}
