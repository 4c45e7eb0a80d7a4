-- ===== src/Xray/Clients.antt =====
-- Who is a client of which generated inbound (internal/xray/generate.go).
use mathlib.Core.List.{Perm, perm_middle}
use mathlib.Core.List.Perm
use zeroone.Prelude.{
  ◌≡◌, refl, String, Bool, true, false, not, ◌&&◌, Option, some, List, [], ◌∷◌, ◌++◌, if◌then◌else◌,
  map,
}
use zeroone.Prelude.Json.{Json, str, array, object, Items, nil, item, Object, empty, get, objects}
use zeroone.Stack.{Config, User}
use zeroone.Xray.Inbounds.{
  client, is_limited, unlimited_clients, limited_inbound, limited_inbounds, public_inbound,
  xhttp_inbound, vless_ws_inbound, vless_xhttp_inbound,
}

abbrev pub as_object : Option Json → Object
as_object (some (object o)) = o
as_object _ = empty

abbrev pub as_items : Option Json → Items
as_items (some (array js)) = js
as_items _ = nil

abbrev pub as_text : Option Json → String
as_text (some (str s)) = s
as_text _ = ""

-- The e-mail addresses of clients.
unfoldable pub email_of : Items → List String
email_of nil = []
email_of (item j js) = as_text (get "email" (as_object (some j))) ∷ email_of js

-- The e-mail addresses in the settings of an inbound.
unfoldable pub clients_in : Object → List String
unfolding email_of
clients_in o = email_of (as_items (get "clients" (as_object (get "settings" o))))

-- The e-mail address and the identifier of a client; a client connects with its identifier.
abbrev login_of : Option Json → String × String
login_of j = (as_text (get "email" (as_object j)), as_text (get "id" (as_object j)))

unfoldable pub logins : Items → List (String × String)
logins nil = []
logins (item j js) = login_of (some j) ∷ logins js

-- The clients in the settings of an inbound.
unfoldable pub logins_in : Object → List (String × String)
unfolding logins
logins_in o = logins (as_items (get "clients" (as_object (get "settings" o))))

unfoldable pub all_logins : List Object → List (String × String)
all_logins [] = []
all_logins (o ∷ os) = logins_in o ++ all_logins os

-- The e-mail address and the identifier of a user.
abbrev pub credential : User → String × String
credential u = (u.email, u.uuid)

unfoldable pub enabled_users : List User → List User
enabled_users [] = []
enabled_users (u ∷ us) = let rest = enabled_users us in if u.enabled then u ∷ rest else rest

shared_logins : List User → List (String × String)
unfolding logins
shared_logins us = logins (objects (unlimited_clients us))

-- One user more: where its client goes.
clients-step :
    (u : User) (enabled own : Bool) (xs : List Object) (os : List Object)
    (es : List (String × String))
    → Perm (logins (objects xs) ++ all_logins os) es
    → Perm
        (logins (objects (if not enabled then xs else if own then xs else client u ∷ xs))
          ++ all_logins (if enabled && own then limited_inbound u ∷ os else os))
        (if enabled then credential u ∷ es else es)
unfolding logins all_logins logins_in client limited_inbound
clients-step u false own xs os es h = h
clients-step u true false xs os es h = Perm.cons (credential u) h
clients-step u true true xs os es h =
    Perm.trans (perm_middle (logins (objects xs)) (all_logins os)) (Perm.cons (credential u) h)

credentials-if :
    (u : User) (b : Bool) (us : List User)
    → map credential (if b then u ∷ us else us)
      ≡ (if b then credential u ∷ map credential us else map credential us)
credentials-if u true us = refl
credentials-if u false us = refl

credentials-enabled :
    (u : User) (us : List User)
    → map credential (enabled_users (u ∷ us)) ≡ (
        if u.enabled
        then credential u ∷ map credential (enabled_users us)
        else map credential (enabled_users us))
unfolding enabled_users
credentials-enabled u us = credentials-if u u.enabled (enabled_users us)

clients-perm :
    (us : List User)
    → Perm
        (shared_logins us ++ all_logins (limited_inbounds us))
        (map credential (enabled_users us))
unfolding shared_logins unlimited_clients limited_inbounds enabled_users all_logins logins
clients-perm [] = Perm.rfl
clients-perm (u ∷ us) = rw (credentials-enabled u us) (
    clients-step u u.enabled (is_limited u) (unlimited_clients us) (limited_inbounds us)
      (map credential (enabled_users us)) (clients-perm us))

-- Who can connect to the generated inbounds, and with what: the e-mail addresses and identifiers of
-- the clients of the public VLESS inbound and of all limited inbounds, one after the other, are a
-- permutation of the e-mail addresses and UUIDs of the enabled users. The XHTTP inbound has the
-- clients of the public inbound, in its order.
pub generate-clients :
    (c : Config)
    → Perm
        (logins_in (public_inbound c) ++ all_logins (limited_inbounds c.xray.users))
        (map credential (enabled_users c.xray.users))
      × (logins_in (xhttp_inbound c) ≡ logins_in (public_inbound c))
unfolding logins_in public_inbound xhttp_inbound vless_ws_inbound vless_xhttp_inbound shared_logins
generate-clients c = (clients-perm c.xray.users, refl)
