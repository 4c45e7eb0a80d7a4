-- ===== src/Plugins/Relay.antt =====
-- The configuration file of the relay plugin (internal/relay/config.go). `url_path` stands for the path
-- that `url.Parse` finds, none where it fails; the file is modelled before `json.MarshalIndent`.
use zeroone.Prelude.{
  String, Bool, true, ◌||◌, Option, none, some, List, [], ◌∷◌, ◌++◌, str_eq, is_empty,
  if◌then◌else◌,
}
use zeroone.Prelude.Int.{ℤ, pos, eqb_ℤ}
use zeroone.Prelude.Result.{Result, err, ok}
use zeroone.Prelude.Json.{Json, str, number, flag, array, object, texts, Object, fields, put}
use zeroone.Stack.{RelayConfig}
use zeroone.Stack.Text.{trim_space, split_at, cut_last}
use zeroone.Stack.Text.Search.{has_text}
use zeroone.Stack.Rules.{contains}
use zeroone.Stack.Effective.{or_text, relay_listen}
use zeroone.Plugins.Listen.{split_listen}

-- The part behind a part `s`.
after_s : List String → Option String
after_s [] = none
after_s (p ∷ []) = none
after_s (p ∷ q ∷ ps) = let rest = after_s (q ∷ ps) in if str_eq p "s" then some q else rest

-- What `RenderConfig` refuses.
pub data Refusal : Type 0 where
  listen_invalid no_deployment no_auth_key : Refusal

abbrev script_ids : List String → Json
script_ids (id ∷ []) = str id
script_ids ids = array (texts ids)

abbrev verifies : Option Bool → Bool
verifies none = true
verifies (some b) = b

abbrev pub hosts : List (String × String) → List (String × Json)
hosts [] = []
hosts ((k, v) ∷ kvs) = (k, str v) ∷ hosts kvs

abbrev pub with_hosts : List (String × String) → Object → Object
with_hosts [] o = o
with_hosts (kv ∷ kvs) o = put "hosts" (object (fields (hosts (kv ∷ kvs)))) o

abbrev pub relay_object : RelayConfig → String → ℤ → List String → Object
relay_object r host port ids = with_hosts r.hosts_map (
    fields (
      ("mode", str "apps_script")
      ∷ ("auth_key", str r.auth_key)
      ∷ ("listen_host", str host)
      ∷ ("listen_port", number port)
      ∷ ("google_ip", str (or_text r.google_ip "216.239.38.120"))
      ∷ ("front_domain", str (or_text r.front_domain "www.google.com"))
      ∷ ("log_level", str (or_text r.log_level "info"))
      ∷ ("verify_ssl", flag (verifies r.verify_ssl))
      ∷ ("script_id", script_ids ids)
      ∷ ("socks5_port", number (if eqb_ℤ r.socks_port (pos 0) then pos 8086 else r.socks_port))
      ∷ []))

unfoldable pub render_parts : RelayConfig → String → ℤ → List String → Result Refusal Object
render_parts r host port [] = err no_deployment
render_parts r host port (id ∷ ids) =
    if is_empty r.auth_key then err no_auth_key else ok (relay_object r host port (id ∷ ids))

module _ (url_path : String → Option String) where
  script_id : String → Option String
  unfolding has_text after_s
  script_id raw =
      if has_text "/macros/s/" raw
      then elim (url_path raw) [ none ↦ none | some path ↦ after_s (split_at b'/' path) ]
      else none

  -- `normaliseDeploymentID`
  normalise_deployment_id : String → String
  unfolding script_id
  normalise_deployment_id raw = elim (script_id raw) [
    | some id ↦ id
    | none ↦ elim (cut_last b'/' raw) [ some (before, last) ↦ last | none ↦ raw ]
  ]

  -- The function `push`: the identifiers with one more.
  unfoldable pub push : String → List String → List String
  unfolding normalise_deployment_id
  push raw ids =
      if is_empty (trim_space raw)
      then ids
      else let id = normalise_deployment_id (trim_space raw) in
        if is_empty id || contains id ids then ids else ids ++ (id ∷ [])

  unfoldable pub push_all : List String → List String → List String
  push_all [] ids = ids
  push_all (raw ∷ raws) ids = push_all raws (push raw ids)

  -- `DeploymentIDs`
  unfoldable pub deployment_ids : RelayConfig → List String
  deployment_ids r =
      let ids = push_all r.deployment_ids [] in
      if is_empty r.script_url then ids else push r.script_url ids

  -- `RenderConfig`
  unfoldable pub render_config : RelayConfig → Result Refusal Object
  unfolding render_parts
  render_config r = elim (split_listen (relay_listen r)) [
    | none ↦ err listen_invalid
    | some (host, port) ↦ render_parts r host port (deployment_ids r)
  ]
