-- ===== src/Stack/Mutate/Users.antt =====
-- The operations on users (internal/stack/mutate.go). `fresh` is what `newUUID` draws.
use zeroone.Prelude.{
  String, Bool, true, false, not, ◌&&◌, ◌||◌, none, some, [], ◌∷◌, ◌++◌, is_empty, length, ◌==◌,
  if◌then◌else◌,
}
use zeroone.Prelude.Int.{ℤ, pos, leb_ℤ}
use zeroone.Stack.Defs.{Config, User}
use zeroone.Stack.Effective.{or_text}
use zeroone.Stack.Text.{parse_hhmm}
use zeroone.Stack.Rules.{is_negative}
use zeroone.Stack.Validate.{is_none}
use zeroone.Stack.Mutate.Outcome.{
  Outcome, required, negative, bad_reset_time, exists, not_found, refuse, checked, with_users,
  any_of, split_first, delete_where, has_email, change_user,
}

abbrev new_user : String → String → User
new_user email uuid = record {
  email = email;
  uuid = uuid;
  enabled = true;
  banned_until = pos 0;
  quota_bytes = pos 0;
  download_mbps = pos 0;
  upload_mbps = pos 0;
  bandwidth_port = pos 0;
  daily_quota_bytes = pos 0;
  weekly_quota_bytes = pos 0;
  monthly_quota_bytes = pos 0;
  daily_reset_hhmm = "";
  max_sessions = pos 0;
  sub_token = "";
}

-- `SetUserEnabled` on the user.
abbrev pub enable : Bool → User → User
enable on u = record u { enabled = on; banned_until = if on then pos 0 else u.banned_until }

module _ (is_cidr : String → Bool) (c : Config) where
  unfoldable pub add_user : String → String → String → Outcome
  add_user fresh email uuid =
      if is_empty email
      then refuse c required
      else if any_of (has_email email) c.xray.users
      then refuse c (exists email)
      else checked is_cidr (with_users c (c.xray.users ++ new_user email (or_text uuid fresh) ∷ []))

  unfoldable pub delete_user : String → Outcome
  delete_user email =
      let left = delete_where (has_email email) c.xray.users in
      if length left == length c.xray.users
      then refuse (with_users c left) (not_found email)
      else checked is_cidr (with_users c left)

  unfoldable pub set_user_enabled : String → Bool → Outcome
  set_user_enabled email on = change_user is_cidr c email (enable on)

  unfoldable pub update_user : String → String → String → Bool → Outcome
  update_user old_email email uuid on =
      if is_empty old_email || is_empty email || is_empty uuid
      then refuse c required
      else elim (split_first (has_email old_email) c.xray.users) [
        | none ↦ refuse c (not_found old_email)
        | some (before, u, after) ↦
            if any_of (has_email email) before || any_of (has_email email) after
            then refuse c (exists email)
            else checked is_cidr (
                with_users c
                  (before ++ enable on (record u { email = email; uuid = uuid }) ∷ after))
      ]

  unfoldable pub ban_user : String → ℤ → Outcome
  ban_user email until =
      if leb_ℤ until (pos 0)
      then refuse c required
      else change_user is_cidr c email (λ u. record u { enabled = false; banned_until = until })

  unfoldable pub unban_user : String → Outcome
  unban_user email =
      change_user is_cidr c email (λ u. record u { enabled = true; banned_until = pos 0 })

  unfoldable pub set_user_quota : String → ℤ → Outcome
  set_user_quota email quota = change_user is_cidr c email (λ u. record u { quota_bytes = quota })

  unfoldable pub set_user_period_quotas : String → ℤ → ℤ → ℤ → String → Outcome
  set_user_period_quotas email daily weekly monthly hhmm =
      if is_negative daily || is_negative weekly || is_negative monthly
      then refuse c negative
      else if not (is_empty hhmm) && is_none (parse_hhmm hhmm)
      then refuse c bad_reset_time
      else change_user is_cidr c email (λ u. record u {
        daily_quota_bytes = daily;
        weekly_quota_bytes = weekly;
        monthly_quota_bytes = monthly;
        daily_reset_hhmm = hhmm;
      })

  unfoldable pub set_user_max_sessions : String → ℤ → Outcome
  set_user_max_sessions email n =
      if is_negative n
      then refuse c negative
      else change_user is_cidr c email (λ u. record u { max_sessions = n })
