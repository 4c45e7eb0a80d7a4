-- ===== src/Api/Settings.antt =====
-- The handlers for the notifications, the sources of Xray updates and the return to a snapshot
-- (internal/api/notifications.go, xray_install.go, observability.go, internal/snapshots/snapshots.go).
use zeroone.Prelude.{String, Bool, not, Option, none, some, is_empty, if◌then◌else◌}
use zeroone.Prelude.Int.{pos}
use zeroone.Stack.{Config, WebhookSink, TelegramSink, NotificationsConfig}
use zeroone.Stack.Mutate.Tunnels.{set_xray_update_config}
use zeroone.Api.Store.{Server, Reply, done, failed, with_cfg}
use zeroone.Api.Handlers.{or_same, with_panel, commit, from_disk}

-- An empty secret keeps the one there is.
abbrev or_secret : String → String → String
or_secret old new = if is_empty new then old else new

unfoldable pub put_webhook : Option WebhookSink → WebhookSink → WebhookSink
put_webhook none old = old
put_webhook (some w) old = record w { secret = or_secret old.secret w.secret }

unfoldable pub put_telegram : Option TelegramSink → TelegramSink → TelegramSink
put_telegram none old = old
put_telegram (some t) old = record t { bot_token = or_secret old.bot_token t.bot_token }

abbrev with_notifications : Config → NotificationsConfig → Config
with_notifications c n = with_panel c (record c.panel { notifications = n })

unfoldable pub put_notifications : Option WebhookSink → Option TelegramSink → Config → Config
put_notifications w t c = with_notifications c (record {
  webhook = put_webhook w c.panel.notifications.webhook;
  telegram = put_telegram t c.panel.notifications.telegram;
})

-- The body of `xrayUpdateConfigPut`; `none` is a field left out.
pub record UpdatePatch : Type 0 where
  pub release_mirror : Option String
  pub assets_mirror : Option String
  pub pinned_version : Option String
  pub auto_check : Option Bool
  pub include_geo : Option Bool

abbrev or_set : Option Bool → Option Bool → Option Bool
or_set old none = old
or_set old (some b) = some b

unfoldable pub put_update_config : UpdatePatch → Config → Config
put_update_config req c =
    let old = c.xray_update in
    set_xray_update_config
      (record {
        release_mirror = or_same old.release_mirror req.release_mirror;
        assets_mirror = or_same old.assets_mirror req.assets_mirror;
        pinned_version = or_same old.pinned_version req.pinned_version;
        auto_check = or_set old.auto_check req.auto_check;
        include_geo = or_set old.include_geo req.include_geo;
      })
      c

-- What the store has under an identifier: there is no store, or no such snapshot, or its `stack.json` cannot
-- be copied, or it can: then the file that it holds, and whether its `xray.json` can be copied too.
pub data Snapshot : Type 0 where
  no_store absent unreadable : Snapshot
  held : (file : Option Config) → (copied : Bool) → Snapshot

-- From the store on.
unfoldable pub restore : (id : String) → Snapshot → Server → Server × Reply
restore id no_store s = (s, failed (pos 503))
restore id absent s = (s, failed (if is_empty id then pos 400 else pos 404))
restore id unreadable s = (s, failed (if is_empty id then pos 400 else pos 500))
restore id (held file copied) s =
    if is_empty id
    then (s, failed (pos 400))
    else (record s { disk = file }, if copied then done else failed (pos 500))

-- `snapshotsRollback`: neither `Validate` nor the configuration in memory is asked.
unfoldable pub roll_back : (allow_apply : Bool) → (id : String) → Snapshot → Server → Server × Reply
unfolding restore
roll_back allow_apply id snapshot s =
    if not allow_apply then (s, failed (pos 403)) else restore id snapshot s

module _ (is_cidr : String → Bool) where
  -- `notificationsPut`
  unfoldable pub notifications_put :
      Option WebhookSink → Option TelegramSink → Server → Server × Reply
  notifications_put w t s = commit is_cidr (with_cfg s (put_notifications w t s.cfg))

  -- `xrayUpdateConfigPut`
  unfoldable pub update_config_put : (allow_apply : Bool) → UpdatePatch → Server → Server × Reply
  update_config_put allow_apply req s =
      if not allow_apply
      then (s, failed (pos 403))
      else from_disk is_cidr (λ c. (put_update_config req c, none)) s
