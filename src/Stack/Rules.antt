-- ===== src/Stack/Rules.antt =====
-- What `Config.Validate` checks of single values (internal/stack/config.go), the errors it answers
-- with, and the tables `seen` and `ports` that it fills.
use zeroone.Prelude.{
  String, Bool, false, not, ◌&&◌, ◌||◌, Option, none, some, List, [], ◌∷◌, str_eq, is_empty,
  if◌then◌else◌,
}
use zeroone.Prelude.Int.{ℤ, pos, ltb_ℤ, eqb_ℤ}
use zeroone.Prelude.Result.{Result, ok, err, reject, ◌>>◌}
use zeroone.Stack.Defs.{XhttpInboundTuning, XhttpClientExtra, XmuxSettings}
use zeroone.Stack.Text.{begins_with, has_char, cut, cut_last, atoi}

-- Who holds a port. In the source a text, never empty.
pub data Owner : Type 0 where
  vless_ws vless_xhttp local_socks xray_api sni_spoof_listen : Owner
  bandwidth socks : String → Owner

-- The errors of `Validate`, with the values that their texts quote.
pub data Invalid : Type 0 where
  admin_listen_required xray_config_path_required vless_ws_port_required : Invalid
  xhttp_path xhttp_mode proxy_tag_required : Invalid
  bad_range negative_count : String → Invalid
  port_taken : ℤ → Owner → Owner → Invalid
  endpoint_name_required : Invalid
  duplicate_endpoint endpoint_host endpoint_port endpoint_network : String → Invalid
  endpoint_path endpoint_mode : String → Invalid
  user_needs_email_and_uuid : Invalid
  duplicate_user negative_limits negative_quotas negative_sessions : String → Invalid
  daily_reset bandwidth_port_range : String → Invalid
  admin_username_required : Invalid
  duplicate_admin admin_hash_required : String → Invalid
  failover_mode_unknown preferred_required : Invalid
  preferred_unknown : String → Invalid
  relay_listen_address relay_empty_domain : Invalid
  relay_tag_conflict relay_duplicate_site : String → Invalid
  spoof_listen_address spoof_method_unknown spoof_tun_cidr : Invalid
  spoof_negative spoof_empty_domain : Invalid
  spoof_tag_conflict spoof_duplicate_site : String → Invalid

abbrev pub Checked : Type 0 → Type 0
Checked A = Result Invalid A

abbrev pub is_negative : ℤ → Bool
is_negative n = ltb_ℤ n (pos 0)

-- `seen[k]`.
unfoldable pub contains : String → List String → Bool
contains k [] = false
contains k (j ∷ js) = str_eq j k || contains k js

-- `ports[p]`: the owner, where the port is taken.
unfoldable pub owner_of : ℤ → List (ℤ × Owner) → Option Owner
owner_of p [] = none
owner_of p ((q, o) ∷ ps) = if eqb_ℤ q p then some o else owner_of p ps

take_port : ℤ → Owner → List (ℤ × Owner) → Option Owner → Checked (List (ℤ × Owner))
take_port p o ps none = ok ((p, o) ∷ ps)
take_port p o ps (some other) = err (port_taken p other o)

-- `addPort`: 0 is no port, and a port has one owner.
unfoldable pub add_port : ℤ → Owner → List (ℤ × Owner) → Checked (List (ℤ × Owner))
unfolding owner_of take_port
add_port p o ps = if eqb_ℤ p (pos 0) then ok ps else take_port p o ps (owner_of p ps)

-- An `int` that is at least 0.
abbrev is_count : Option ℤ → Bool
is_count none = false
is_count (some n) = not (is_negative n)

abbrev in_order : Option ℤ → Option ℤ → Bool
in_order (some l) (some h) = not (is_negative l) && not (ltb_ℤ h l)
in_order _ _ = false

abbrev valid_range : Option (String × String) → String → Bool
valid_range none v = is_count (atoi v)
valid_range (some (lo, hi)) v = in_order (atoi lo) (atoi hi)

-- `validateRangeOrInt`: nothing, `n`, or `lo-hi`.
unfoldable pub is_range_or_int : String → Bool
unfolding cut atoi
is_range_or_int v = is_empty v || valid_range (cut b'-' v) v

unfoldable pub check_range : String → Checked (Unit {0})
unfolding is_range_or_int
check_range v = reject (not (is_range_or_int v)) (bad_range v)

-- `XHTTPInboundTuning.validate`
unfoldable pub check_tuning : XhttpInboundTuning → Checked (Unit {0})
unfolding check_range
check_tuning t = do
  check_range t.x_padding_bytes
  reject (is_negative t.sc_max_buffered_posts) (negative_count "sc_max_buffered_posts")
  check_range t.sc_max_each_post_bytes
  check_range t.sc_stream_up_server_secs
  reject (is_negative t.keep_alive_period) (negative_count "keep_alive_period")

check_xmux : Option XmuxSettings → Checked (Unit {0})
unfolding check_range
check_xmux none = ok tt
check_xmux (some x) = do
  check_range x.max_concurrency
  check_range x.max_connections
  reject (is_negative x.c_max_reuse_times) (negative_count "xmux.c_max_reuse_times")
  reject (is_negative x.c_max_lifetime_ms) (negative_count "xmux.c_max_lifetime_ms")
  reject (is_negative x.h_max_request_times) (negative_count "xmux.h_max_request_times")

-- `XHTTPClientExtra.validate`
unfoldable pub check_extra : XhttpClientExtra → Checked (Unit {0})
unfolding check_range check_xmux
check_extra e = do check_range e.x_padding_bytes; check_xmux e.xmux

unfoldable pub is_xhttp_mode : String → Bool
is_xhttp_mode m =
    str_eq m "auto" || str_eq m "packet-up" || str_eq m "stream-up" || str_eq m "stream-one"

unfoldable pub bracketed : String → String → Option (String × String)
bracketed String.[] port = none
bracketed (String.◌∷◌ _ rest) port = elim (cut b']' rest) [
  | none ↦ none
  | some (host, after) ↦
      if not (is_empty after) || has_char b'[' host || has_char b'[' port || has_char b']' port
      then none
      else some (host, port)
]

-- `net.SplitHostPort`.
unfoldable pub net_split_host_port : String → Option (String × String)
unfolding cut cut_last has_char begins_with bracketed
net_split_host_port s = elim (cut_last b':' s) [
  | none ↦ none
  | some (host, port) ↦
      if begins_with b'[' s
      then bracketed host port
      else if has_char b':' host || has_char b'[' s || has_char b']' s
      then none
      else some (host, port)
]

unfoldable pub host_and_port : String → Option ℤ → Option (String × ℤ)
host_and_port h none = none
host_and_port h (some n) = if ltb_ℤ n (pos 1) || ltb_ℤ (pos 65535) n then none else some (h, n)

-- `splitHostPort`; `none` stands for each of its errors.
unfoldable pub split_host_port : String → Option (String × ℤ)
unfolding net_split_host_port atoi host_and_port
split_host_port addr = elim (net_split_host_port addr) [
  | none ↦ none
  | some (h, p) ↦ host_and_port h (atoi p)
]
