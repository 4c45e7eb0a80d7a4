-- ===== src/Subscription/Headers.antt =====
-- The headers of a subscription, and the choice of its format (internal/subscription/headers.go). `base64`
-- is the standard encoding, `to_lower` stands for `strings.ToLower`.
use zeroone.Prelude.{
  String, ◌||◌, Option, none, some, List, str_eq, is_empty, append_text, if◌then◌else◌,
}
use zeroone.Prelude.Int.{ℤ, pos, ltb_ℤ}
use zeroone.Prelude.Assoc.{insert}
use zeroone.Stack.Text.Decimal.{show_ℤ}
use zeroone.Stack.Text.Search.{has_text}
use zeroone.Subscription.Encode.{Format, plain, clash, sing_box}

-- `UserInfo`
pub record UserInfo : Type 0 where
  pub upload_bytes : ℤ
  pub download_bytes : ℤ
  pub total_bytes : ℤ
  pub expire_unix : ℤ

abbrev entry : String → ℤ → String
entry name n = append_text name (show_ℤ n)

-- What stands behind the first part, each with `; ` before it.
abbrev positive_part : String → ℤ → String
positive_part name n = if ltb_ℤ (pos 0) n then append_text "; " (entry name n) else ""

-- `UserInfo.Header`
unfoldable pub info_header : UserInfo → String
info_header i = append_text (entry "upload=" i.upload_bytes) (
    append_text (append_text "; " (entry "download=" i.download_bytes))
      (append_text (positive_part "total=" i.total_bytes) (positive_part "expire=" i.expire_unix)))

abbrev pub Headers : Type 0
Headers = List (String × String)

abbrev set_unless_empty : String → String → String → Headers → Headers
set_unless_empty value k v h = if is_empty value then h else insert k v h

-- `WriteResponseHeaders`
unfoldable pub write_response_headers :
    (String → String) → Headers → UserInfo → (title web_page_url : String) → (hours : ℤ) → Headers
unfolding info_header
write_response_headers base64 h info title web_page_url hours =
    let h₁ = insert "subscription-userinfo" (info_header info) h in
    let h₂ =
      if ltb_ℤ (pos 0) hours then insert "profile-update-interval" (show_ℤ hours) h₁ else h₁ in
    let h₃ = set_unless_empty title "profile-title" (append_text "base64:" (base64 title)) h₂ in
    let h₄ = set_unless_empty web_page_url "profile-web-page-url" web_page_url h₃ in
    insert "Cache-Control" "no-store" h₄

-- What a request says of the format: its `format` parameter, its client and what it accepts.
pub record Wish : Type 0 where
  pub format : String
  pub user_agent : String
  pub accept : String

unfoldable pub format_param : String → Option Format
format_param q =
    if str_eq q "clash" || str_eq q "yaml"
    then some clash
    else if str_eq q "singbox" || str_eq q "sing-box" || str_eq q "json"
    then some sing_box
    else if str_eq q "base64" || str_eq q "text" || str_eq q "v2ray"
    then some plain
    else none

unfoldable pub format_of_agent : String → Option Format
format_of_agent ua =
    if has_text "clash" ua || has_text "mihomo" ua || has_text "stash" ua
    then some clash
    else if has_text "sing-box" ua
        || has_text "hiddify" ua
        || has_text "nekobox" ua
        || has_text "nekoray" ua
    then some sing_box
    else none

unfoldable pub format_accepted : String → Format
format_accepted accept =
    if has_text "application/json" accept
    then sing_box
    else if has_text "yaml" accept
    then clash
    else plain

-- `NegotiateFormat`; the empty parameter asks for nothing.
unfoldable pub negotiate_format : (String → String) → Wish → Format
unfolding format_param format_of_agent format_accepted
negotiate_format to_lower w = elim (format_param (to_lower w.format)) [
  | some f ↦ f
  | none ↦ elim (format_of_agent (to_lower w.user_agent)) [
    | some f ↦ f
    | none ↦ format_accepted (to_lower w.accept)
  ]
]
