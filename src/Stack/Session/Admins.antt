-- ===== src/Stack/Session/Admins.antt =====
-- The panel keeps an administrator, whatever is called (internal/stack/mutate.go).
use zeroone.Prelude.{
  ◌≡◌, refl, inl, inr, String, Bool, true, none, List, [], ◌∷◌, arith, is_empty, Bool-cases,
  Option-cases,
}
use zeroone.Stack.Defs.{Config}
use zeroone.Prelude.Result.{ok}
use zeroone.Stack.Validate.{validate}
use zeroone.Stack.Text.{trim_space}
use zeroone.Stack.Mutate.Outcome.{Outcome, update_first, checked}
use zeroone.Stack.Mutate.Admins.{has_name, new_admin, add_admin, set_admin_password, delete_admin}
use zeroone.Stack.Rules.{contains}
use zeroone.Stack.Mutate.Tunnels.{delete_direct_domain, set_xray_update_config}
use zeroone.Stack.Mutate.Domains.{normalize_domain_rule, add_direct_domain}
use zeroone.Stack.Session.Calls.{Call, validates, call, calls}
use zeroone.Stack.Session.Calls
use zeroone.Stack.Session.Panel.{
  Keeps, add_user-Keeps, delete_user-Keeps, update_user-Keeps, set_user_enabled-Keeps,
  ban_user-Keeps, unban_user-Keeps, set_user_quota-Keeps, set_user_max_sessions-Keeps,
  set_user_period_quotas-Keeps, set_user_bandwidth-Keeps, add_socks-Keeps, update_socks-Keeps,
  delete_socks-Keeps, delete_client_endpoint-Keeps, upsert_client_endpoint-Keeps,
  set_failover_mode-Keeps, add_admin-Passes, set_admin_password-Passes, delete_admin-Passes,
}
use zeroone.Stack.Session.Names.{
  IsStaffed, delete_where-length, delete_where-Unique, append-Unique, update_first-usernames,
  length-append_one, same_names_someone,
}

pub add_direct_domain-Staffed :
    (to_lower : String → String) (domain : String) (c : Config)
    → IsStaffed c.panel.admins
    → IsStaffed (add_direct_domain to_lower c domain).0.panel.admins
unfolding add_direct_domain
add_direct_domain-Staffed to_lower domain c st =
    elim (Option-cases (normalize_domain_rule to_lower domain)) [
      | inl bad ↦ rw (bad, add_direct_domain) st
      | inr (d, good) ↦ elim (Bool-cases (contains d c.xray.routing.direct_domains)) [
        | inl old ↦ rw (good, add_direct_domain, old) st
        | inr new ↦ rw (good, add_direct_domain, new) st
      ]
    ]

module _ (is_cidr : String → Bool) where
  pub add_admin-Staffed :
      (c : Config) (name hash : String)
      → IsStaffed c.panel.admins
      → IsStaffed (add_admin is_cidr c name hash).0.panel.admins
  unfolding add_admin checked
  add_admin-Staffed c name hash st = ground (
    arith,
    st,
    st.unique,
    st.someone,
    append-Unique c.panel.admins (new_admin (trim_space name) hash) st.unique,
    length-append_one c.panel.admins (new_admin (trim_space name) hash),
  )

  set_admin_password-Staffed :
      (c : Config) (name hash : String)
      → IsStaffed c.panel.admins
      → IsStaffed (set_admin_password is_cidr c name hash).0.panel.admins
  unfolding set_admin_password checked
  set_admin_password-Staffed c name hash st = elim (Bool-cases (is_empty hash)) [
    | inl e ↦ rw e st
    | inr e ↦
        elim (Option-cases
          (update_first (has_name name) (λ a. record a { password_hash = hash }) c.panel.admins)) [
            | inl none_left ↦ rw (e, none_left) st
            | inr (bs, found) ↦
                let same =
                  update_first-usernames name (λ a. record a { password_hash = hash })
                    c.panel.admins (λ a. refl) found in
                rw (e, found)
                  (record {
                    unique = rw same st.unique;
                    someone = same_names_someone c.panel.admins bs same st.someone;
                  })
          ]
  ]

  delete_admin-Staffed :
      (c : Config) (name : String)
      → IsStaffed c.panel.admins
      → IsStaffed (delete_admin is_cidr c name).0.panel.admins
  unfolding delete_admin checked
  delete_admin-Staffed c name st = ground (
    arith,
    st,
    st.unique,
    st.someone,
    delete_where-Unique name c.panel.admins st.unique,
    delete_where-length name c.panel.admins st.unique,
  )

  kept :
      (c : Config) {o : Outcome}
      → Keeps is_cidr c o
      → IsStaffed c.panel.admins
      → IsStaffed o.0.panel.admins
  kept c k st = rw k.panel st

module _ (is_cidr : String → Bool) (to_lower : String → String) where
  pub call-Staffed :
      (c : Config) (k : Call)
      → IsStaffed c.panel.admins
      → IsStaffed (call is_cidr to_lower c k).0.panel.admins
  unfolding call delete_direct_domain set_xray_update_config
  call-Staffed c (Calls.add_user fresh email uuid) st =
      kept is_cidr c (add_user-Keeps is_cidr c fresh email uuid) st
  call-Staffed c (Calls.delete_user email) st =
      kept is_cidr c (delete_user-Keeps is_cidr c email) st
  call-Staffed c (Calls.unban_user email) st = kept is_cidr c (unban_user-Keeps is_cidr c email) st
  call-Staffed c (Calls.set_user_enabled email on) st =
      kept is_cidr c (set_user_enabled-Keeps is_cidr c email on) st
  call-Staffed c (Calls.update_user old_email email uuid on) st =
      kept is_cidr c (update_user-Keeps is_cidr c old_email email uuid on) st
  call-Staffed c (Calls.ban_user email until) st =
      kept is_cidr c (ban_user-Keeps is_cidr c email until) st
  call-Staffed c (Calls.set_user_quota email quota) st =
      kept is_cidr c (set_user_quota-Keeps is_cidr c email quota) st
  call-Staffed c (Calls.set_user_max_sessions email n) st =
      kept is_cidr c (set_user_max_sessions-Keeps is_cidr c email n) st
  call-Staffed c (Calls.set_user_period_quotas email daily weekly monthly hhmm) st =
      kept is_cidr c (set_user_period_quotas-Keeps is_cidr c email daily weekly monthly hhmm) st
  call-Staffed c (Calls.set_user_bandwidth email down up) st =
      kept is_cidr c (set_user_bandwidth-Keeps is_cidr c email down up) st
  call-Staffed c (Calls.add_socks fresh s) st =
      kept is_cidr c (add_socks-Keeps is_cidr c fresh s) st
  call-Staffed c (Calls.update_socks old_name s) st =
      kept is_cidr c (update_socks-Keeps is_cidr c old_name s) st
  call-Staffed c (Calls.delete_socks name) st =
      kept is_cidr c (delete_socks-Keeps is_cidr c name) st
  call-Staffed c (Calls.delete_client_endpoint name) st =
      kept is_cidr c (delete_client_endpoint-Keeps is_cidr c name) st
  call-Staffed c (Calls.upsert_client_endpoint ep) st =
      kept is_cidr c (upsert_client_endpoint-Keeps is_cidr c to_lower ep) st
  call-Staffed c (Calls.set_failover_mode mode tunnel) st =
      kept is_cidr c (set_failover_mode-Keeps is_cidr c to_lower mode tunnel) st
  call-Staffed c (Calls.add_direct_domain domain) st =
      add_direct_domain-Staffed to_lower domain c st
  call-Staffed c (Calls.delete_direct_domain domain) st = st
  call-Staffed c (Calls.set_xray_update_config patch) st = st
  call-Staffed c (Calls.add_admin name hash) st = add_admin-Staffed is_cidr c name hash st
  call-Staffed c (Calls.set_admin_password name hash) st =
      set_admin_password-Staffed is_cidr c name hash st
  call-Staffed c (Calls.delete_admin name) st = delete_admin-Staffed is_cidr c name st

  -- Whatever operations are called on a configuration with an administrator and no two
  -- administrators of one name, in whatever order and whether they succeed or fail, the
  -- configuration they leave has an administrator, and no two of one name.
  pub calls-Staffed :
      (c : Config) (ks : List Call)
      → IsStaffed c.panel.admins
      → IsStaffed (calls is_cidr to_lower c ks).panel.admins
  unfolding calls
  calls-Staffed c [] st = st
  calls-Staffed c (k ∷ ks) st = calls-Staffed (call is_cidr to_lower c k).0 ks (call-Staffed c k st)

  -- A call of an operation that ends in `Validate` and reports no error leaves a configuration that
  -- `Validate` accepts.
  pub call-Passes :
      (c : Config) (k : Call)
      → validates k ≡ true
      → (call is_cidr to_lower c k).1 ≡ none
      → validate is_cidr (call is_cidr to_lower c k).0 ≡ ok tt
  unfolding call
  call-Passes c (Calls.add_user fresh email uuid) e h =
      (add_user-Keeps is_cidr c fresh email uuid).passes h
  call-Passes c (Calls.delete_user email) e h = (delete_user-Keeps is_cidr c email).passes h
  call-Passes c (Calls.unban_user email) e h = (unban_user-Keeps is_cidr c email).passes h
  call-Passes c (Calls.set_user_enabled email on) e h =
      (set_user_enabled-Keeps is_cidr c email on).passes h
  call-Passes c (Calls.update_user old_email email uuid on) e h =
      (update_user-Keeps is_cidr c old_email email uuid on).passes h
  call-Passes c (Calls.ban_user email until) e h = (ban_user-Keeps is_cidr c email until).passes h
  call-Passes c (Calls.set_user_quota email quota) e h =
      (set_user_quota-Keeps is_cidr c email quota).passes h
  call-Passes c (Calls.set_user_max_sessions email n) e h =
      (set_user_max_sessions-Keeps is_cidr c email n).passes h
  call-Passes c (Calls.set_user_period_quotas email daily weekly monthly hhmm) e h =
      (set_user_period_quotas-Keeps is_cidr c email daily weekly monthly hhmm).passes h
  call-Passes c (Calls.set_user_bandwidth email down up) e h =
      (set_user_bandwidth-Keeps is_cidr c email down up).passes h
  call-Passes c (Calls.add_socks fresh s) e h = (add_socks-Keeps is_cidr c fresh s).passes h
  call-Passes c (Calls.update_socks old_name s) e h =
      (update_socks-Keeps is_cidr c old_name s).passes h
  call-Passes c (Calls.delete_socks name) e h = (delete_socks-Keeps is_cidr c name).passes h
  call-Passes c (Calls.delete_client_endpoint name) e h =
      (delete_client_endpoint-Keeps is_cidr c name).passes h
  call-Passes c (Calls.upsert_client_endpoint ep) e h =
      (upsert_client_endpoint-Keeps is_cidr c to_lower ep).passes h
  call-Passes c (Calls.set_failover_mode mode tunnel) e h =
      (set_failover_mode-Keeps is_cidr c to_lower mode tunnel).passes h
  call-Passes c (Calls.add_admin name hash) e h = add_admin-Passes is_cidr c name hash h
  call-Passes c (Calls.set_admin_password name hash) e h =
      set_admin_password-Passes is_cidr c name hash h
  call-Passes c (Calls.delete_admin name) e h = delete_admin-Passes is_cidr c name h
  call-Passes c (Calls.add_direct_domain domain) e h = cc
  call-Passes c (Calls.delete_direct_domain domain) e h = cc
  call-Passes c (Calls.set_xray_update_config patch) e h = cc
