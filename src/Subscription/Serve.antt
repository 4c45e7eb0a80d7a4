-- ===== src/Subscription/Serve.antt =====
-- The answer to a request of a subscription or of the user's page (internal/subscription/server.go). The
-- page's template and its fixed headers are left out.
use zeroone.Prelude.{ℕ, String, Bool, Option, none, some, List, [], append_text, if◌then◌else◌}
use zeroone.Prelude.Int.{ℤ, pos, ltb_ℤ, ◌+ℤ◌}
use zeroone.Prelude.Assoc.{lookup, insert}
use zeroone.Stack.{Config, User}
use zeroone.Stack.Tokens.{user_by_sub_token}
use zeroone.Usage.{UserState}
use zeroone.Links.Names.{Link}
use zeroone.Links.Make.{Texts, vless}
use zeroone.Subscription.Encode.{format_name}
use zeroone.Subscription.Clash.{Encoders, encode}
use zeroone.Subscription.Headers.{UserInfo, Headers, Wish, write_response_headers, negotiate_format}
use zeroone.Subscription.Names.{safe_attachment_name}

-- What the handlers get from their surroundings: the counters, none where they cannot be read or there
-- is no reader; the server's address; the token in the path, without its slashes; and what Go's libraries do.
pub record Deps : Type 0 where
  pub config : Config
  pub usage : Option UserState
  pub base_url : String
  pub texts : Texts
  pub encoders : Encoders
  pub bytes : String → List ℕ
  pub text : List ℕ → String
  pub media_type : String → String

pub record Response : Type 0 where
  pub headers : Headers
  pub body : String

abbrev pub expiry : User → ℤ
expiry u = if ltb_ℤ (pos 0) u.banned_until then u.banned_until else pos 0

-- `buildUserInfo`
unfoldable pub build_user_info : Option UserState → User → UserInfo
build_user_info none u = record {
  upload_bytes = pos 0;
  download_bytes = pos 0;
  total_bytes = u.quota_bytes;
  expire_unix = expiry u;
}
build_user_info (some st) u = elim (lookup u.email st.totals) [
  | none ↦ record {
    upload_bytes = pos 0;
    download_bytes = pos 0;
    total_bytes = u.quota_bytes;
    expire_unix = expiry u;
  }
  | some p ↦ record {
    upload_bytes = p.uplink;
    download_bytes = p.downlink;
    total_bytes = u.quota_bytes;
    expire_unix = expiry u;
  }
]

-- The answer to a known user.
unfoldable pub serve_user : Deps → User → (token : String) → Wish → Response
serve_user d u token wish =
    let format = negotiate_format d.texts.to_lower wish in
    let (body, kind) = encode d.encoders format (vless d.texts d.config u) in
    let info = build_user_info d.usage u in
    let h =
      write_response_headers d.encoders.base64 [] info u.email
        (append_text d.base_url (append_text "/me/" token)) (pos 24) in
    let file =
      append_text (d.text (safe_attachment_name (d.bytes u.email)))
        (append_text "-" (append_text (format_name format) ".txt")) in
    record {
      headers =
          insert "Content-Disposition" (d.media_type file)
            (insert "X-Content-Type-Options" "nosniff" (insert "Content-Type" kind h));
      body = body;
    }

-- `HandleSubscription`; none stands for 404.
unfoldable pub handle_subscription : Deps → (token : String) → Wish → Option Response
handle_subscription d token wish = elim (user_by_sub_token d.config token) [
  | none ↦ none
  | some u ↦ some (serve_user d u token wish)
]

-- `portalData` without its JSON form.
pub record PortalData : Type 0 where
  pub email : String
  pub token : String
  pub enabled : Bool
  pub banned_until : ℤ
  pub quota : ℤ
  pub download_mbps : ℤ
  pub upload_mbps : ℤ
  pub used : ℤ
  pub upload : ℤ
  pub download : ℤ
  pub base_url : String
  pub links : List Link

unfoldable pub portal_of : Deps → (token : String) → User → PortalData
portal_of d token u =
    let info = build_user_info d.usage u in
    record {
      email = u.email;
      token = token;
      enabled = u.enabled;
      banned_until = u.banned_until;
      quota = u.quota_bytes;
      download_mbps = u.download_mbps;
      upload_mbps = u.upload_mbps;
      used = info.upload_bytes +ℤ info.download_bytes;
      upload = info.upload_bytes;
      download = info.download_bytes;
      base_url = d.base_url;
      links = vless d.texts d.config u;
    }

-- `HandlePortal` up to the page; none stands for 404.
unfoldable pub handle_portal : Deps → (token : String) → Option PortalData
handle_portal d token = elim (user_by_sub_token d.config token) [
  | none ↦ none
  | some u ↦ some (portal_of d token u)
]
