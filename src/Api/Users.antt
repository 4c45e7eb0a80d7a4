-- ===== src/Api/Users.antt =====
-- The handlers for users, SOCKS inbounds and passwords (internal/api/server.go, admins.go,
-- users_periods.go): which operation on the configuration a request asks for.
use zeroone.Prelude.{ℕ, String, Bool, ◌||◌, Option, none, some, ltb, is_empty, if◌then◌else◌}
use zeroone.Prelude.Int.{ℤ, pos, leb_ℤ}
use zeroone.Stack.{SocksInbound}
use zeroone.Stack.Effective.{or_text}
use zeroone.Stack.Session.Calls.{Call, call}
use zeroone.Stack.Session.Calls
use zeroone.Api.Store.{Server, Reply, done, failed}
use zeroone.Api.Handlers.{in_memory}

-- A decoded request; `fresh` is what the operation draws at random, `hash` none where none is made.
pub data Change : Type 0 where
  add_user : (fresh email uuid : String) → Change
  update_user : (old_email email uuid : String) → Bool → Change
  delete_user unban_user delete_socks delete_admin : (name : String) → Change
  ban_user : (email : String) → (minutes : ℤ) → Change
  set_user_quota set_user_max_sessions : (email : String) → ℤ → Change
  set_user_periods : (email : String) → (daily weekly monthly : ℤ) → (hhmm : String) → Change
  add_socks : (fresh : String) → SocksInbound → Change
  update_socks : (old_username : String) → SocksInbound → Change
  set_password : (name : String) → (password_length : ℕ) → (hash : Option String) → Change

-- The operation of a request and the status code of its error, or the code of a request that is
-- refused before. `later` is the Unix time so many minutes from now.
pub data Asked : Type 0 where
  refused : (code : ℤ) → Asked
  asks : (code : ℤ) → Call → Asked

abbrev with_listen : SocksInbound → SocksInbound
with_listen s = record s { listen = or_text s.listen "0.0.0.0" }

unfoldable pub ask_password : String → Option String → Asked
ask_password name none = refused (pos 500)
ask_password name (some hash) = asks (pos 400) (Calls.set_admin_password name hash)

unfoldable pub asked : (ℤ → ℤ) → Change → Asked
unfolding ask_password
asked later (add_user fresh email uuid) = asks (pos 400) (Calls.add_user fresh email uuid)
asked later (update_user old_email email uuid on) =
    asks (pos 400) (Calls.update_user old_email email uuid on)
asked later (delete_user name) = asks (pos 404) (Calls.delete_user name)
asked later (unban_user name) = asks (pos 400) (Calls.unban_user name)
asked later (ban_user email minutes) =
    asks (pos 400)
      (Calls.ban_user email (later (if leb_ℤ minutes (pos 0) then pos 60 else minutes)))
asked later (set_user_quota email quota) = asks (pos 400) (Calls.set_user_quota email quota)
asked later (set_user_max_sessions email n) =
    if is_empty email
    then refused (pos 400)
    else asks (pos 400) (Calls.set_user_max_sessions email n)
asked later (set_user_periods email daily weekly monthly hhmm) =
    if is_empty email
    then refused (pos 400)
    else asks (pos 400) (Calls.set_user_period_quotas email daily weekly monthly hhmm)
asked later (add_socks fresh s) = asks (pos 400) (Calls.add_socks fresh s)
asked later (update_socks old_username s) =
    asks (pos 400) (Calls.update_socks old_username (with_listen s))
asked later (delete_socks name) = asks (pos 404) (Calls.delete_socks name)
asked later (set_password name password_length hash) =
    if is_empty name || ltb password_length 8 then refused (pos 400) else ask_password name hash
asked later (delete_admin name) = asks (pos 400) (Calls.delete_admin name)

module _ (is_cidr : String → Bool) (to_lower : String → String) where
  unfoldable pub perform : Asked → Server → Server × Reply
  perform (refused code) s = (s, failed code)
  perform (asks code k) s = in_memory is_cidr (λ c. call is_cidr to_lower c k) code s

  unfoldable pub handle : (ℤ → ℤ) → Change → Server → Server × Reply
  handle later r s = perform (asked later r) s

  unfoldable pub with_reply : Bool → Server × Reply → Server × Reply
  with_reply applied (s, failed code) = (s, failed code)
  with_reply applied (s, done) = (s, if applied then done else failed (pos 500))

  -- `setUserBandwidth`; `applied` is false where it runs Xray, the limits or the firewall, and fails.
  unfoldable pub set_bandwidth : String → ℤ → ℤ → Bool → Server → Server × Reply
  unfolding with_reply
  set_bandwidth email down up applied s = with_reply applied (
      in_memory is_cidr (λ c. call is_cidr to_lower c (Calls.set_user_bandwidth email down up))
        (pos 400) s)
