-- ===== src/Stack/Session/Names.antt =====
-- Lists of administrators as the operations of internal/stack/mutate.go change them.
use zeroone.Prelude.{
  ◌+◌, ◌≤◌, ◌≡◌, refl, inl, inr, String, true, false, some, List, [], ◌∷◌, ◌++◌, arith, length,
  str_eq, str_eq_iff, Bool-cases, Option-cases,
}
use zeroone.Stack.Defs.{Admin}
use zeroone.Stack.Rules.{contains}
use zeroone.Stack.Mutate.Outcome.{any_of, update_first, delete_where}
use zeroone.Stack.Mutate.Admins.{has_name}
use zeroone.Stack.Valid.Unique.{Unique, usernames}

-- There is an administrator, and no two have one name.
pub record IsStaffed (as' : List Admin) : Type 0 where
  pub unique : Unique (usernames as')
  pub someone : 1 ≤ length as'

-- Deleting a name that nobody has changes nothing.
delete_where_absent :
    (name : String) (as' : List Admin)
    → contains name (usernames as') ≡ false
    → delete_where (has_name name) as' ≡ as'
unfolding delete_where contains
delete_where_absent name [] h = refl
delete_where_absent name (a ∷ as') h = ground (arith, delete_where_absent name as')

contains_same :
    (j k : String) (ks : List String)
    → str_eq j k ≡ true
    → contains j ks ≡ false
    → contains k ks ≡ false
contains_same j k ks e h = rw (← (str_eq_iff j k).0 e) h

-- At most one administrator goes.
pub delete_where-length :
    (name : String) (as' : List Admin)
    → Unique (usernames as')
    → length as' ≤ length (delete_where (has_name name) as') + 1
unfolding delete_where
delete_where-length name [] u = omega arith
delete_where-length name (a ∷ as') u = elim (Bool-cases (str_eq a.username name)) [
  | inl e ↦
      rw (e, delete_where_absent name as' (contains_same a.username name (usernames as') e u.0))
        (omega arith)
  | inr e ↦ rw e (omega (arith, delete_where-length name as' u.1))
]

contains-delete_where :
    (k name : String) (as' : List Admin)
    → contains k (usernames as') ≡ false
    → contains k (usernames (delete_where (has_name name) as')) ≡ false
unfolding delete_where contains
contains-delete_where k name [] h = refl
contains-delete_where k name (a ∷ as') h = ground (arith, contains-delete_where k name as')

pub delete_where-Unique :
    (name : String) (as' : List Admin)
    → Unique (usernames as')
    → Unique (usernames (delete_where (has_name name) as'))
unfolding delete_where
delete_where-Unique name [] u = tt
delete_where-Unique name (a ∷ as') u = elim (Bool-cases (str_eq a.username name)) [
  | inl e ↦ rw e (delete_where-Unique name as' u.1)
  | inr e ↦ rw e (contains-delete_where a.username name as' u.0, delete_where-Unique name as' u.1)
]

contains-append :
    (k : String) (as' : List Admin) (b : Admin)
    → contains k (usernames as') ≡ false
    → str_eq b.username k ≡ false
    → contains k (usernames (as' ++ b ∷ [])) ≡ false
unfolding contains
contains-append k [] b h e = rw e
contains-append k (a ∷ as') b h e = ground (arith, contains-append k as' b)

pub append-Unique :
    (as' : List Admin) (b : Admin)
    → Unique (usernames as')
    → any_of (has_name b.username) as' ≡ false
    → Unique (usernames (as' ++ b ∷ []))
unfolding any_of
append-Unique [] b u h = (unfold contains in refl, tt)
append-Unique (a ∷ as') b u h = (
  contains-append a.username as' b u.0
      (ground (arith, str_eq_iff a.username b.username, str_eq_iff b.username a.username)),
  append-Unique as' b u.1 (ground arith),
)

-- A new password leaves the names.
pub update_first-usernames :
    (name : String) (f : Admin → Admin) (as' : List Admin) {bs : List Admin}
    → ((a : Admin) → (f a).username ≡ a.username)
    → update_first (has_name name) f as' ≡ some bs
    → usernames bs ≡ usernames as'
unfolding update_first
update_first-usernames name f [] k h = cc
update_first-usernames name f (a ∷ as') k h = elim (Bool-cases (str_eq a.username name)) [
  | inl e ↦ ground (arith, k a)
  | inr e ↦ elim (Option-cases (update_first (has_name name) f as')) [
    | inl none_left ↦ ground arith
    | inr (cs, found) ↦ ground (arith, update_first-usernames name f as' {bs = cs} k found)
  ]
]

pub length-append_one : (as' : List Admin) (b : Admin) → 1 ≤ length (as' ++ b ∷ [])
length-append_one [] b = omega arith
length-append_one (a ∷ as') b = omega arith

pub same_names_someone :
    (as' bs : List Admin) → usernames bs ≡ usernames as' → 1 ≤ length as' → 1 ≤ length bs
same_names_someone [] bs e h = omega arith
same_names_someone (a ∷ as') [] e h = cc
same_names_someone (a ∷ as') (b ∷ bs) e h = omega arith
