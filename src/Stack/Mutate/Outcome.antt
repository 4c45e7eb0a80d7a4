-- ===== src/Stack/Mutate/Outcome.antt =====
-- The answers of the operations, and what several of them share.
use zeroone.Prelude.{
  String, Bool, true, false, ◌||◌, Option, none, some, List, [], ◌∷◌, str_eq, if◌then◌else◌,
}
use zeroone.Prelude.Result.{ok, err}
use zeroone.Stack.Defs.{Config, User, Admin, SocksInbound, ClientEndpoint}
use zeroone.Stack.Rules.{Invalid, Checked}
use zeroone.Stack.Validate.{validate}

-- `invalid` is an error of the final `Validate`.
pub data Refused : Type 0 where
  invalid : Invalid → Refused
  required negative no_free_port last_admin unknown_mode bad_reset_time bad_domain : Refused
  exists not_found : String → Refused
  duplicate_socks : Refused

abbrev pub Outcome : Type 0
Outcome = Config × Option Refused

abbrev pub error_of : Checked (Unit {0}) → Option Refused
error_of (ok _) = none
error_of (err e) = some (invalid e)

abbrev pub refuse : Config → Refused → Outcome
refuse c e = (c, some e)

-- `return c.Validate()`
unfoldable pub checked : (String → Bool) → Config → Outcome
checked is_cidr c = (c, error_of (validate is_cidr c))

abbrev pub with_users : Config → List User → Config
with_users c us = record c { xray = record (c.xray) { users = us } }

abbrev pub with_admins : Config → List Admin → Config
with_admins c as' = record c { panel = record (c.panel) { admins = as' } }

abbrev pub with_socks : Config → List SocksInbound → Config
with_socks c ss = record c {
  xray = record (c.xray) { inbounds = record (c.xray.inbounds) { public_socks = ss } };
}

abbrev pub with_endpoints : Config → List ClientEndpoint → Config
with_endpoints c es = record c { server = record (c.server) { client_endpoints = es } }

module _ {ℓ} {A : Type ℓ} where
  unfoldable pub any_of : (A → Bool) → List A → Bool
  any_of p [] = false
  any_of p (x ∷ xs) = p x || any_of p xs

  -- A change of the first element that fits, as the loops over an index make it.
  unfoldable pub update_first : (A → Bool) → (A → A) → List A → Option (List A)
  update_first p f [] = none
  update_first p f (x ∷ xs) = elim (p x) [
    | true ↦ some (f x ∷ xs)
    | false ↦ elim (update_first p f xs) [ none ↦ none | some ys ↦ some (x ∷ ys) ]
  ]

  -- What stands before, at and behind the first element that fits.
  unfoldable pub split_first : (A → Bool) → List A → Option (List A × A × List A)
  split_first p [] = none
  split_first p (x ∷ xs) = elim (p x) [
    | true ↦ some ([], x, xs)
    | false ↦ elim (split_first p xs) [
      | none ↦ none
      | some (before, y, after) ↦ some (x ∷ before, y, after)
    ]
  ]

  -- `slices.DeleteFunc`
  unfoldable pub delete_where : (A → Bool) → List A → List A
  delete_where p [] = []
  delete_where p (x ∷ xs) = let rest = delete_where p xs in if p x then rest else x ∷ rest

abbrev pub has_email : String → User → Bool
has_email email u = str_eq u.email email

-- The loop that changes the user of an e-mail address, and validates.
unfoldable pub change_user : (String → Bool) → Config → String → (User → User) → Outcome
change_user is_cidr c email f = elim (update_first (has_email email) f c.xray.users) [
  | none ↦ refuse c (not_found email)
  | some us ↦ checked is_cidr (with_users c us)
]
