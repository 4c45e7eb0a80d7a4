-- ===== src/Stack/Valid/Unique.antt =====
-- The names in a configuration that passes `Validate`.
use zeroone.Prelude.{◌≡◌, refl, String, Bool, false, List, [], ◌∷◌, map, arith, str_eq_iff}
use zeroone.Prelude.Result.{ok, ◌>>=◌, >>=-eq-ok}
use zeroone.Stack.Defs.{Config, User, Admin}
use zeroone.Stack.Rules.{bandwidth, contains, add_port}
use zeroone.Stack.Validate.{Ports, check_user, check_users, check_admin, check_admins, validate}
use zeroone.Stack.Valid.Stages.{validate-Passed}

-- No name of the list occurs again behind itself.
abbrev pub Unique : List String → Type 0
Unique [] = Unit {0}
Unique (k ∷ ks) = (contains k ks ≡ false) × Unique ks

abbrev Absent : List String → List String → Type 0
Absent [] seen = Unit {0}
Absent (k ∷ ks) seen = (contains k seen ≡ false) × Absent ks seen

abbrev pub emails : List User → List String
emails = map (λ (u : User). u.email)

abbrev pub usernames : List Admin → List String
usernames = map (λ (a : Admin). a.username)

Absent-tail :
    (ks : List String) (k : String) (seen : List String)
    → Absent ks (k ∷ seen)
    → Absent ks seen × (contains k ks ≡ false)
unfolding contains
Absent-tail [] k seen h = (tt, refl)
Absent-tail (j ∷ ks) k seen h =
    ground (arith, Absent-tail ks k seen h.1, str_eq_iff j k, str_eq_iff k j)

check_user-fresh :
    (u : User) (seen : List String) → check_user u seen ≡ ok tt → contains u.email seen ≡ false
unfolding check_user
check_user-fresh u seen h = ground arith

check_users-Unique :
    (us : List User) (seen : List String) (ps : Ports) {qs : Ports}
    → check_users us seen ps ≡ ok qs
    → Unique (emails us) × Absent (emails us) seen
unfolding check_users
check_users-Unique [] seen ps h = (tt, tt)
check_users-Unique (u ∷ us) seen ps h =
    let (_, own, checked) =
      >>=-eq-ok (check_user u seen)
        (λ _. add_port u.bandwidth_port (bandwidth u.email) ps >>= λ rs.
          check_users us (u.email ∷ seen) rs)
        h in
    let (rs, _, rest) =
      >>=-eq-ok (add_port u.bandwidth_port (bandwidth u.email) ps)
        (λ rs. check_users us (u.email ∷ seen) rs) checked in
    let (unique, absent) = check_users-Unique us (u.email ∷ seen) rs rest in
    let (outside, alone) = Absent-tail (emails us) u.email seen absent in
    ((alone, unique), (check_user-fresh u seen own, outside))

check_admin-fresh :
    (a : Admin) (seen : List String) → check_admin a seen ≡ ok tt → contains a.username seen ≡ false
unfolding check_admin
check_admin-fresh a seen h = ground arith

check_admins-Unique :
    (as' : List Admin) (seen : List String)
    → check_admins as' seen ≡ ok tt
    → Unique (usernames as') × Absent (usernames as') seen
unfolding check_admins
check_admins-Unique [] seen h = (tt, tt)
check_admins-Unique (a ∷ as') seen h =
    let (_, own, rest) =
      >>=-eq-ok (check_admin a seen) (λ _. check_admins as' (a.username ∷ seen)) h in
    let (unique, absent) = check_admins-Unique as' (a.username ∷ seen) rest in
    let (outside, alone) = Absent-tail (usernames as') a.username seen absent in
    ((alone, unique), (check_admin-fresh a seen own, outside))

-- In a configuration that passes `Validate`, no two users have one e-mail address and no two
-- administrators one name.
pub validate-Unique :
    (is_cidr : String → Bool) (c : Config)
    → validate is_cidr c ≡ ok tt
    → Unique (emails c.xray.users) × Unique (usernames c.panel.admins)
validate-Unique is_cidr c h =
    let passed = validate-Passed is_cidr c h in
    (
      (check_users-Unique c.xray.users [] passed.listeners_table passed.users).0,
      (check_admins-Unique c.panel.admins [] passed.admins).0,
    )
