-- ===== src/Stack/Mutate/Admins.antt =====
-- The operations on panel administrators (internal/stack/mutate.go).
use zeroone.Prelude.{
  String, Bool, none, some, [], ◌∷◌, ◌++◌, ◌||◌, str_eq, is_empty, length, leb, ◌==◌, if◌then◌else◌,
}
use zeroone.Prelude.Int.{pos}
use zeroone.Stack.Defs.{Config, Admin}
use zeroone.Stack.Text.{trim_space}
use zeroone.Stack.Mutate.Outcome.{
  Outcome, required, last_admin, exists, not_found, refuse, checked, with_admins, any_of,
  update_first, delete_where,
}

abbrev pub has_name : String → Admin → Bool
has_name name a = str_eq a.username name

abbrev pub new_admin : String → String → Admin
new_admin name hash = record {
  username = name;
  password_hash = hash;
  created_at = pos 0;
  last_login = pos 0;
}

module _ (is_cidr : String → Bool) (c : Config) where
  unfoldable pub add_admin : String → String → Outcome
  add_admin username hash =
      let name = trim_space username in
      if is_empty name || is_empty hash
      then refuse c required
      else if any_of (has_name name) c.panel.admins
      then refuse c (exists name)
      else checked is_cidr (with_admins c (c.panel.admins ++ new_admin name hash ∷ []))

  unfoldable pub set_admin_password : String → String → Outcome
  set_admin_password name hash =
      if is_empty hash
      then refuse c required
      else elim (update_first (has_name name) (λ a. record a { password_hash = hash })
          c.panel.admins) [
            | none ↦ refuse c (not_found name)
            | some as' ↦ checked is_cidr (with_admins c as')
          ]

  unfoldable pub delete_admin : String → Outcome
  delete_admin name =
      let left = delete_where (has_name name) c.panel.admins in
      if leb (length c.panel.admins) 1
      then refuse c last_admin
      else if length left == length c.panel.admins
      then refuse (with_admins c left) (not_found name)
      else checked is_cidr (with_admins c left)
