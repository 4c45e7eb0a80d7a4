-- ===== src/Plugins/Rendered.antt =====
-- The relay's file with the checked configuration (internal/relay/config.go,
-- internal/stack/config.go).
use zeroone.Prelude.{
  ◌≡◌, refl, ap, ◌∙◌, sym, String, Bool, true, false, Option, some, List, [], ◌∷◌, is_empty, str_eq,
  if◌then◌else◌,
}
use zeroone.Prelude.Int.{ℤ}
use zeroone.Prelude.Result.{ok, >>=-eq-ok}
use zeroone.Prelude.Json.{Object, str, number, object, fields, get, get-put}
use zeroone.Stack.{Config, RelayConfig}
use zeroone.Stack.Rules.{relay_listen_address, split_host_port}
use zeroone.Stack.Validate.{listen_port, check_relay, relay_rules, validate}
use zeroone.Stack.Valid.Stages.{validate-Passed}
use zeroone.Stack.Effective.{relay_listen}
use zeroone.Plugins.Listen.{if-yes, split_listen, split_host_port-listen}
use zeroone.Plugins.Agree.{listen_port-address, is_empty-nil}
use zeroone.Plugins.Relay.{
  deployment_ids, render_config, render_parts, relay_object, with_hosts, hosts,
}

if-no {ℓ} : {A : Type ℓ} → (b : Bool) (x y : A) → b ≡ false → (if b then x else y) ≡ y
if-no b x y h = rw h refl

validate-relay :
    (is_cidr : String → Bool) (c : Config)
    → validate is_cidr c ≡ ok tt
    → c.relay.enabled ≡ true
    → (port : ℤ) × (listen_port relay_listen_address (relay_listen c.relay) ≡ ok port)
unfolding check_relay relay_rules
validate-relay is_cidr c valid on =
    let passed = validate-Passed is_cidr c valid in
    let rules : relay_rules c.relay c.xray.outbounds ≡ ok tt =
      sym (if-yes c.relay.enabled _ (ok tt) on) ∙ passed.relay in
    let (port, listens, _) = >>=-eq-ok _ _ rules in (port, listens)

with_hosts-keeps :
    (kvs : List (String × String)) (k : String) (o : Object)
    → str_eq "hosts" k ≡ false
    → get k (with_hosts kvs o) ≡ get k o
with_hosts-keeps [] k o other = refl
with_hosts-keeps (kv ∷ kvs) k o other =
    get-put k "hosts" (object (fields (hosts (kv ∷ kvs)))) o ∙ if-no _ _ _ other

render_parts-ok :
    (r : RelayConfig) (host : String) (port : ℤ)
    → {ids : List String} {id : String} {more : List String} → ids ≡ id ∷ more
    → is_empty r.auth_key ≡ false
    → (o : Object) × (render_parts r host port ids ≡ ok o)
      × (get "listen_host" o ≡ some (str host))
      × (get "listen_port" o ≡ some (number port))
unfolding render_parts
render_parts-ok r host port {id = id} {more = more} e key = (
  relay_object r host port (id ∷ more),
  ap (render_parts r host port) e ∙ if-no _ _ _ key,
  with_hosts-keeps r.hosts_map "listen_host" _ refl,
  with_hosts-keeps r.hosts_map "listen_port" _ refl,
)

-- The relay listens where `Validate` has checked: in a configuration that `Validate` accepts, with the
-- relay enabled, a deployment identifier and an `auth_key`, the listen address has a host and a port,
-- `RenderConfig` reports no error, and `listen_host` and `listen_port` of its file are that host and
-- that port.
pub render_config-validated :
    (is_cidr : String → Bool) (url_path : String → Option String) (c : Config) (id : String)
    (ids : List String)
    → validate is_cidr c ≡ ok tt
    → c.relay.enabled ≡ true
    → deployment_ids url_path c.relay ≡ id ∷ ids
    → is_empty c.relay.auth_key ≡ false
    → (host : String) × (port : ℤ) × (o : Object) × (split_host_port (relay_listen c.relay)
        ≡ some (host, port))
      × (render_config url_path c.relay ≡ ok o)
      × (get "listen_host" o ≡ some (str host))
      × (get "listen_port" o ≡ some (number port))
unfolding render_config
render_config-validated is_cidr url_path c id ids valid on deployments key =
    let (port, listens) = validate-relay is_cidr c valid on in
    let (host, found, named) =
      listen_port-address relay_listen_address (relay_listen c.relay) port listens in
    let split : split_listen (relay_listen c.relay) ≡ some (host, port) =
      split_host_port-listen (relay_listen c.relay) host port found (is_empty-nil host named) in
    let (o, rendered, hosts, ports) = render_parts-ok c.relay host port deployments key in
    (host, port, o, found, rw (split, render_config) rendered, hosts, ports)
