-- ===== src/Auth/Sessions.antt =====
-- The signed session tokens of the panel (internal/auth/session.go). `encode` and `decode` stand for
-- unpadded URL-safe base64, `sign` for the encoded HMAC of `hmacSig`, and `now` for the clock's Unix
-- time.
use zeroone.Prelude.{
  ◌≡◌, refl, ap, ◌∙◌, inl, inr, ℕ, ◌<◌, ◌+◌, ◌*◌, ◌^◌, arith, String, false, ◌||◌, Option, none,
  some, str_eq, str_eq_iff, str_eq_refl, is_empty, append_text, ltb, if◌then◌else◌, Bool-cases,
}
use zeroone.Prelude.Int.{pos, ltb_ℤ}
use zeroone.Stack.Text.{has_char, cut, cut_last, atoi}
use zeroone.Stack.Text.Decimal.{show_ℤ, atoi-show_ℤ, has_char-show_ℤ}
use zeroone.Stack.Text.Cuts.{append_text-cons, cut-append, cut_last-append}

-- `SessionTTL` in seconds.
abbrev pub session_ttl : ℕ
session_ttl = 12 * 3600

abbrev pub payload : String → ℕ → String
payload username expires = append_text username (append_text "|" (show_ℤ (pos expires)))

module _ (sign : String → String → String) (encode : String → String) where
  -- `IssueSession`: the token and when it expires.
  unfoldable pub issue_session : String → String → ℕ → Option (String × ℕ)
  issue_session secret username now =
      let expires = now + session_ttl in
      let enc = encode (payload username expires) in
      if is_empty secret || has_char b'|' username
      then none
      else some (append_text enc (append_text "." (sign secret enc)), expires)

-- The user in a payload, unless it has expired.
user_in : ℕ → Option (String × String) → String
user_in now none = ""
user_in now (some (username, exp)) = elim (atoi exp) [
  | none ↦ ""
  | some expires ↦ if ltb_ℤ expires (pos now) then "" else username
]

user_of_payload : ℕ → Option String → String
user_of_payload now none = ""
user_of_payload now (some raw) = user_in now (cut_last b'|' raw)

module _ (sign : String → String → String) (decode : String → Option String) where
  verify_parts : String → ℕ → Option (String × String) → String
  unfolding user_of_payload user_in
  verify_parts secret now none = ""
  verify_parts secret now (some (enc, sig)) =
      if str_eq (sign secret enc) sig then user_of_payload now (decode enc) else ""

  -- `VerifySession`
  unfoldable pub verify_session : String → String → ℕ → String
  unfolding verify_parts
  verify_session secret token now =
      if is_empty secret || is_empty token then "" else verify_parts secret now (cut b'.' token)

module _ (sign : String → String → String) (encode : String → String)
    (decode : String → Option String) where
  user_in-payload :
      (username : String) (expires later : ℕ)
      → expires < 2 ^ 63
      → user_of_payload later (some (payload username expires))
        ≡ (if ltb expires later then "" else username)
  unfolding user_of_payload user_in
  user_in-payload username expires later h =
      let number = show_ℤ (pos expires) in
      let halves =
        cut_last-append b'|' username "|" number refl
          (has_char-show_ℤ b'|' expires (omega arith)) in
      let read = atoi-show_ℤ (pos expires) h (omega arith) in
      ap (user_of_payload later)
        (ap (λ s. some (append_text username s)) (append_text-cons "|" number))
      ∙ ap (user_in later) halves
      ∙ rw (read, user_in) (ground arith)

  abbrev signed : String → String → String
  signed secret enc = append_text enc (append_text "." (sign secret enc))

  issue_session-signed :
      (secret username : String) (now : ℕ) {token : String} {expires : ℕ}
      → issue_session sign encode secret username now ≡ some (token, expires)
      → (is_empty secret ≡ false)
        × (token ≡ signed secret (encode (payload username (now + session_ttl))))
  unfolding issue_session
  issue_session-signed secret username now h =
      elim (Bool-cases (is_empty secret || has_char b'|' username)) [
        | inl e ↦ cc (rw e at h)
        | inr e ↦ (ground arith, cc (rw e at h))
      ]

  cut-signed :
      (secret enc : String)
      → has_char b'.' enc ≡ false
      → cut b'.' (signed secret enc) ≡ some (enc, sign secret enc)
  cut-signed secret enc no_point =
      rw (append_text-cons "." (sign secret enc))
        (cut-append b'.' enc "." (sign secret enc) refl no_point)

  verify-signed :
      (secret enc : String) (later : ℕ)
      → is_empty secret ≡ false
      → has_char b'.' enc ≡ false
      → verify_session sign decode secret (signed secret enc) later
        ≡ user_of_payload later (decode enc)
  unfolding verify_session verify_parts cut
  verify-signed secret enc later given no_point = elim (Bool-cases (is_empty (signed secret enc))) [
    | inl e ↦
        let none_left : cut b'.' (signed secret enc) ≡ none =
          ap (cut b'.') ((str_eq_iff (signed secret enc) "").0 e) in
        absurd (cc (none_left, cut-signed secret enc no_point))
    | inr e ↦ rw (given, e, cut-signed secret enc no_point) (simp (str_eq_refl (sign secret enc)))
  ]

  -- An issued session token names its user until it expires, and nobody from then on: where base64
  -- decodes the payload that it encoded, to a text without a point, and the time of expiry is within a
  -- 64-bit integer, a token that `IssueSession` issues at `now` is read by `VerifySession` with the
  -- same secret, at whatever time, as the user it was issued for up to twelve hours after `now`, and
  -- as nobody later.
  pub verify-issue :
      (secret username : String) (now later : ℕ) {token : String} {expires : ℕ}
      → decode (encode (payload username (now + session_ttl)))
        ≡ some (payload username (now + session_ttl))
      → has_char b'.' (encode (payload username (now + session_ttl))) ≡ false
      → now + session_ttl < 2 ^ 63
      → issue_session sign encode secret username now ≡ some (token, expires)
      → verify_session sign decode secret token later
        ≡ (if ltb (now + session_ttl) later then "" else username)
  verify-issue secret username now later {token} {expires} decodes no_point small issued =
      let enc = encode (payload username (now + session_ttl)) in
      let (given, made) = issue_session-signed secret username now issued in
      ap (λ t. verify_session sign decode secret t later) made
      ∙ verify-signed secret enc later given no_point
      ∙ ap (user_of_payload later) decodes
      ∙ user_in-payload username (now + session_ttl) later small
