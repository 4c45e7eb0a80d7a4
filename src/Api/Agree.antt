-- ===== src/Api/Agree.antt =====
-- Memory and file after a handler (internal/api/server.go, admins.go, tokens.go).
use zeroone.Prelude.{
  ℕ, ◌≡◌, refl, sym, ap, ◌∙◌, ◌⊎◌, inl, inr, String, Bool, true, false, not, ◌||◌, Option, none,
  some, Bool-cases, if◌then◌else◌, is_empty, ltb,
}
use zeroone.Prelude.Int.{ℤ, pos}
use zeroone.Prelude.Result.{ok}
use zeroone.Stack.{Config}
use zeroone.Stack.Validate.{validate}
use zeroone.Stack.Mutate.Outcome.{Outcome, any_of}
use zeroone.Stack.Session.Calls.{Call, validates, call}
use zeroone.Api.Users
use zeroone.Stack.Session.Calls
use zeroone.Stack.Session.Admins.{call-Passes}
use zeroone.Enforce.{plan_quota, apply_quota_plan}
use zeroone.Usage.{UserState}
use zeroone.Api.Store.{Server, Reply, done, failed, is_valid, with_cfg, load, save_config}
use zeroone.Api.Users.{
  Change, Asked, asked, ask_password, perform, handle, with_reply, set_bandwidth,
}
use zeroone.Api.Handlers.{
  settle, saved, has_id, commit, in_memory, from_disk, create_admin, store, admin_create,
  token_create, token_delete, save_quota, quota_apply, switch_failover,
}
use zeroone.Api.Settings.{put_update_config, notifications_put, update_config_put}
use zeroone.Api.Undone.{change_plugin-settles}
use zeroone.Api.Actions.{Action, act}

-- The requests but the log-in, which answers before it is known to be stored, the use of a token, and
-- the return to a snapshot, which is a change of the file alone.
abbrev pub is_change : Action → Bool
is_change (Action.use_token hash now) = false
is_change (Action.roll_back allow_apply id snapshot) = false
is_change (Action.log_in name password fresh now) = false
is_change _ = true

abbrev asks_valid : Asked → Bool
asks_valid (Asked.refused code) = true
asks_valid (Asked.asks code k) = validates k

if-validates :
    (b : Bool) (x : Asked)
    → asks_valid x ≡ true
    → asks_valid (if b then Asked.refused (pos 400) else x) ≡ true
if-validates true x h = refl
if-validates false x h = h

-- Every operation that such a request asks for ends in `Validate`.
asked-all : (later : ℤ → ℤ) (r : Change) → asks_valid (asked later r) ≡ true
unfolding asked ask_password
asked-all later (Users.add_user fresh email uuid) = refl
asked-all later (Users.update_user old_email email uuid on) = refl
asked-all later (Users.delete_user name) = refl
asked-all later (Users.unban_user name) = refl
asked-all later (Users.delete_socks name) = refl
asked-all later (Users.delete_admin name) = refl
asked-all later (Users.ban_user email minutes) = refl
asked-all later (Users.set_user_quota email quota) = refl
asked-all later (Users.set_user_max_sessions email n) =
    if-validates (is_empty email) (Asked.asks (pos 400) (Calls.set_user_max_sessions email n)) refl
asked-all later (Users.set_user_periods email daily weekly monthly hhmm) =
    if-validates (is_empty email)
      (Asked.asks (pos 400) (Calls.set_user_period_quotas email daily weekly monthly hhmm)) refl
asked-all later (Users.add_socks fresh s) = refl
asked-all later (Users.update_socks old_username s) = refl
asked-all later (Users.set_password name password_length none) =
    if-validates (is_empty name || ltb password_length 8) (ask_password name none) refl
asked-all later (Users.set_password name password_length (some hash)) =
    if-validates (is_empty name || ltb password_length 8) (ask_password name (some hash)) refl

asked-validates :
    (later : ℤ → ℤ) (r : Change) {code : ℤ} {k : Call}
    → asked later r ≡ Asked.asks code k
    → validates k ≡ true
asked-validates later r e = sym (ap asks_valid e) ∙ asked-all later r

module _ (is_cidr : String → Bool) where
  -- A 200 answer comes with the same valid configuration in memory and in the file.
  abbrev pub Agrees : Server × Reply → Type 0
  Agrees (s, r) = r ≡ done → (s.disk ≡ some s.cfg) × (is_valid is_cidr s.cfg ≡ true)

  if-Agrees : (b : Bool) (x y : Server × Reply) → Agrees x → Agrees y → Agrees (if b then x else y)
  if-Agrees true x y h k = h
  if-Agrees false x y h k = k

  option-Agrees :
      {A : Type 0} (o : Option A) (x : Server × Reply) (f : A → Server × Reply)
      → Agrees x
      → ((a : A) → Agrees (f a))
      → Agrees (elim o as (λ p. Server × Reply) [ none ↦ x | some a ↦ f a ])
  option-Agrees none x f h k = h
  option-Agrees (some a) x f h k = k a

  settle-Agrees :
      (o : Outcome) (bad good : Config → Server × Reply)
      → ((c : Config) → Agrees (bad c))
      → ((c : Config) → Agrees (good c))
      → Agrees (settle o bad good)
  settle-Agrees (c, some e) bad good b g = b c
  settle-Agrees (c, none) bad good b g = g c

  failed-Agrees : (s : Server) (code : ℤ) → Agrees (s, failed code)
  failed-Agrees s code h = cc

  -- A save whose rest leaves the saved configuration in memory.
  save-Agrees :
      (s : Server) (c : Config) (code : ℤ) (good : Server → Server × Reply)
      → (good (record s { disk = some c })).0 ≡ record { cfg = c; disk = some c }
      → Agrees (saved (save_config is_cidr s c) code good)
  unfolding save_config
  save-Agrees s c code good e = elim (Bool-cases (is_valid is_cidr c)) [
    | inl valid ↦ rw (valid, save_config) (λ h. rw e (refl, valid))
    | inr bad ↦ rw (bad, save_config) (failed-Agrees s code)
  ]

  commit-Agrees : (s : Server) → Agrees (commit is_cidr s)
  unfolding commit
  commit-Agrees s = save-Agrees s s.cfg (pos 400) (λ t. (t, done)) refl

  in_memory-Agrees :
      (f : Config → Outcome) (code : ℤ) (s : Server) → Agrees (in_memory is_cidr f code s)
  unfolding in_memory
  in_memory-Agrees f code s =
      settle-Agrees (f s.cfg) _ _ (λ c. failed-Agrees (with_cfg s c) code)
        (λ c. commit-Agrees (with_cfg s c))

  from_disk-Agrees : (f : Config → Outcome) (s : Server) → Agrees (from_disk is_cidr f s)
  unfolding from_disk store
  from_disk-Agrees f s = option-Agrees (load is_cidr s) _ _ (failed-Agrees s (pos 500)) (λ c.
      settle-Agrees (f c) _ _ (λ d. failed-Agrees s (pos 400))
        (λ d. save-Agrees s d (pos 400) (λ t. (with_cfg t d, done)) refl))

  quota_apply-Agrees :
      (allow_apply : Bool) (usage : Option UserState) (now : ℤ) (applied : Bool) (s : Server)
      → Agrees (quota_apply is_cidr allow_apply usage now applied s)
  unfolding quota_apply save_quota
  quota_apply-Agrees allow_apply none now applied s = λ h. cc
  quota_apply-Agrees allow_apply (some usage) now applied s =
      if-Agrees (not allow_apply) _ _ (failed-Agrees s (pos 403)) (
        settle-Agrees (apply_quota_plan is_cidr s.cfg (plan_quota s.cfg usage now)) _ _
          (λ next. failed-Agrees _ (pos 500))
          (λ next.
            save-Agrees _ next (pos 500)
              (λ t. (with_cfg t next, if applied then done else failed (pos 500))) refl))

  token_create-Agrees :
      (id scope : String) (hash : Option String) (now : ℤ) (s : Server)
      → Agrees (token_create is_cidr id scope hash now s)
  unfolding token_create
  token_create-Agrees id scope hash now s =
      if-Agrees (is_empty id) _ _ (failed-Agrees s (pos 400)) (
        if-Agrees (any_of (has_id id) s.cfg.panel.tokens) _ _ (failed-Agrees s (pos 409))
          (option-Agrees hash _ _ (failed-Agrees s (pos 500)) (λ h. commit-Agrees _)))

  token_delete-Agrees : (id : String) (s : Server) → Agrees (token_delete is_cidr id s)
  unfolding token_delete
  token_delete-Agrees id s = if-Agrees (is_empty id) _ _ (failed-Agrees s (pos 400)) (
      if-Agrees (not (any_of (has_id id) s.cfg.panel.tokens)) _ _ (failed-Agrees s (pos 404))
        (commit-Agrees _))

  admin_create-Agrees :
      (name : String) (n : ℕ) (hash : Option String) (now : ℤ) (s : Server)
      → Agrees (admin_create is_cidr name n hash now s)
  unfolding admin_create
  admin_create-Agrees name n hash now s =
      if-Agrees (is_empty name || ltb n 8) _ _ (failed-Agrees s (pos 400)) (
        option-Agrees hash _ _ (failed-Agrees s (pos 500))
          (λ h. in_memory-Agrees (create_admin is_cidr name h now) (pos 400) s))

  settled-Agrees :
      (s : Server) (answer : Server × Reply)
      → ((answer.1 ≡ done)
          × (answer.0.disk ≡ some answer.0.cfg)
          × (is_valid is_cidr answer.0.cfg ≡ true))
        ⊎ ((code : ℤ) × (answer.1 ≡ failed code) × (answer.0 ≡ s))
      → Agrees answer
  settled-Agrees s (t, r) (inl (e, written, valid)) h = (written, valid)
  settled-Agrees s (t, r) (inr (code, e, same)) h = cc

  settle-overwrites :
      (s : Server) (o : Outcome) (code : ℤ)
      → o.1 ≡ none
      → validate is_cidr o.0 ≡ ok tt
      → settle o (λ c. (with_cfg s c, failed code)) (λ c. commit is_cidr (with_cfg s c))
        ≡ (record { cfg = o.0; disk = some o.0 }, done)
  unfolding commit save_config is_valid
  settle-overwrites s (c, some e) code h valid = cc
  settle-overwrites s (c, none) code h valid = rw (valid, is_valid)

module _ (is_cidr : String → Bool) (to_lower : String → String) where
  perform-Agrees : (o : Asked) (s : Server) → Agrees is_cidr (perform is_cidr to_lower o s)
  unfolding perform
  perform-Agrees (Asked.refused code) s = failed-Agrees is_cidr s code
  perform-Agrees (Asked.asks code k) s = in_memory-Agrees is_cidr _ code s

  with_reply-Agrees :
      (applied : Bool) (answer : Server × Reply)
      → Agrees is_cidr answer
      → Agrees is_cidr (with_reply is_cidr to_lower applied answer)
  unfolding with_reply
  with_reply-Agrees applied (s, failed code) h = h
  with_reply-Agrees true (s, done) h = h
  with_reply-Agrees false (s, done) h = failed-Agrees is_cidr s (pos 500)

module _ (is_cidr : String → Bool) (to_lower : String → String) (verify : String → String → Bool)
    (sign : String → String → String) (encode : String → String) where
  -- A 200 answer means that the change is stored: where a request other than a log-in, the use of a
  -- token or the return to a snapshot is answered with 200, the file then holds what is in memory, and `Validate` accepts it.
  pub act-Agrees :
      (a : Action) (s : Server)
      → is_change a ≡ true
      → (act is_cidr to_lower verify sign encode a s).1 ≡ done
      → ((act is_cidr to_lower verify sign encode a s).0.disk
          ≡ some (act is_cidr to_lower verify sign encode a s).0.cfg)
        × (is_valid is_cidr (act is_cidr to_lower verify sign encode a s).0.cfg ≡ true)
  unfolding act handle set_bandwidth notifications_put update_config_put
  act-Agrees (Action.change later r) s c = perform-Agrees is_cidr to_lower (asked later r) s
  act-Agrees (Action.limit email down up applied) s c =
      with_reply-Agrees is_cidr to_lower applied _ (in_memory-Agrees is_cidr _ (pos 400) s)
  act-Agrees (Action.change_endpoint k) s c = from_disk-Agrees is_cidr _ s
  act-Agrees (Action.failover_mode mode tunnel ks applied) s c =
      with_reply-Agrees is_cidr to_lower applied _
        (from_disk-Agrees is_cidr (switch_failover is_cidr to_lower mode tunnel ks) s)
  act-Agrees (Action.quota allow_apply usage now applied) s c =
      quota_apply-Agrees is_cidr allow_apply usage now applied s
  act-Agrees (Action.create_admin name n hash now) s c =
      admin_create-Agrees is_cidr name n hash now s
  act-Agrees (Action.create_token id scope hash now) s c =
      token_create-Agrees is_cidr id scope hash now s
  act-Agrees (Action.delete_token id) s c = token_delete-Agrees is_cidr id s
  act-Agrees (Action.use_token hash now) s c = cc
  act-Agrees (Action.change_plugin equal_fold q) s c =
      settled-Agrees is_cidr s _ (change_plugin-settles is_cidr equal_fold q s)
  act-Agrees (Action.put_notifications w t) s c = commit-Agrees is_cidr _
  act-Agrees (Action.put_update_config allow_apply req) s c =
      if-Agrees is_cidr (not allow_apply) _ _ (failed-Agrees is_cidr s (pos 403))
        (from_disk-Agrees is_cidr (λ d. (put_update_config req d, none)) s)
  act-Agrees (Action.roll_back allow_apply id snapshot) s c = cc
  act-Agrees (Action.add_domain domain) s c = in_memory-Agrees is_cidr _ (pos 400) s
  act-Agrees (Action.delete_domain domain) s c = in_memory-Agrees is_cidr _ (pos 400) s
  act-Agrees (Action.log_in name password fresh now) s c = cc

  -- A change of the live configuration overwrites the file: where the operation that a request on
  -- users, SOCKS inbounds or passwords asks for reports no error on the configuration in memory, the
  -- handler answers with 200 and stores the changed configuration, whatever the file had before, so
  -- that what another program put there is lost.
  pub change_overwrites :
      (later : ℤ → ℤ) (r : Change) (code : ℤ) (k : Call) (s : Server)
      → asked later r ≡ Asked.asks code k
      → (call is_cidr to_lower s.cfg k).1 ≡ none
      → act is_cidr to_lower verify sign encode (Action.change later r) s ≡ (
        record {
          cfg = (call is_cidr to_lower s.cfg k).0;
          disk = some (call is_cidr to_lower s.cfg k).0;
        },
        done,
      )
  unfolding act handle perform in_memory
  change_overwrites later r code k s e h =
      ap (λ o. perform is_cidr to_lower o s) e
      ∙ settle-overwrites is_cidr s (call is_cidr to_lower s.cfg k) code h
          (call-Passes is_cidr to_lower s.cfg k (asked-validates later r e) h)
