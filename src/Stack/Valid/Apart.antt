-- ===== src/Stack/Valid/Apart.antt =====
-- No port is claimed twice in a configuration that passes `Validate`.
use zeroone.Prelude.{
  ◌≡◌, inl, inr, ap, ◌∙◌, String, Bool, true, false, ◌||◌, none, some, List, [], ◌∷◌, ◌++◌, map,
  arith, Bool-cases, Option-cases, is_empty, if◌then◌else◌,
}
use zeroone.Prelude.Int.{ℤ, pos, eqb_ℤ}
use zeroone.Prelude.Result.{ok, err, ◌>>=◌, >>=-eq-ok}
use zeroone.Stack.Defs.{Config, User, SocksInbound, SniSpoofConfig, OutboundSet, RelayConfig}
use zeroone.Stack.Rules.{
  Owner, Invalid, vless_ws, vless_xhttp, local_socks, xray_api, bandwidth, socks, sni_spoof_listen,
  spoof_listen_address, split_host_port, Checked, add_port,
}
use zeroone.Stack.Validate.{
  Ports, listener_ports, check_user, check_users, check_socks, listen_port, check_spoof_fields,
  spoof_rules, check_spoof, validate,
}
use zeroone.Stack.Effective.{spoof_listen}
use zeroone.Stack.Valid.Stages.{validate-Passed}
use zeroone.Stack.Valid.Table.{add_all, Apart, add_all-Apart}

-- Every port that `Validate` counts but the one of sni_spoof, with its owner.
abbrev claims : Config → Ports
claims c =
    (c.xray.inbounds.vless_ws_port, vless_ws)
    ∷ (c.xray.inbounds.vless_xhttp_port, vless_xhttp)
    ∷ (c.xray.inbounds.local_socks_port, local_socks)
    ∷ (c.xray.api_port, xray_api)
    ∷ (map (λ (u : User). (u.bandwidth_port, bandwidth u.email)) c.xray.users
        ++ map (λ (s : SocksInbound). (s.port, socks s.name)) c.xray.inbounds.public_socks)

ok-path : {ps qs : Ports} → ◌≡◌ {A = Checked Ports} (ok ps) (ok qs) → ps ≡ qs
ok-path h = cc

add_all-append :
    (xs ys ps : Ports) {qs rs : Ports}
    → add_all xs ps ≡ ok qs
    → add_all ys qs ≡ ok rs
    → add_all (xs ++ ys) ps ≡ ok rs
unfolding add_all
add_all-append [] ys ps {qs} h k = let e : ps ≡ qs = ok-path h in rw e k
add_all-append ((p, o) ∷ xs) ys ps h k =
    let (ts, added, rest) = >>=-eq-ok (add_port p o ps) (add_all xs) h in
    rw added (add_all-append xs ys ts rest k)

check_users-add_all :
    (us : List User) (seen : List String) (ps : Ports) {qs : Ports}
    → check_users us seen ps ≡ ok qs
    → add_all (map (λ u. (u.bandwidth_port, bandwidth u.email)) us) ps ≡ ok qs
unfolding add_all check_users
check_users-add_all [] seen ps h = h
check_users-add_all (u ∷ us) seen ps h =
    let (_, _, checked) =
      >>=-eq-ok (check_user u seen)
        (λ _. add_port u.bandwidth_port (bandwidth u.email) ps >>= λ rs.
          check_users us (u.email ∷ seen) rs)
        h in
    let (rs, added, rest) =
      >>=-eq-ok (add_port u.bandwidth_port (bandwidth u.email) ps)
        (λ rs. check_users us (u.email ∷ seen) rs) checked in
    rw added (check_users-add_all us (u.email ∷ seen) rs rest)

check_socks-add_all :
    (ss : List SocksInbound) (ps : Ports) {qs : Ports}
    → check_socks ss ps ≡ ok qs
    → add_all (map (λ s. (s.port, socks s.name)) ss) ps ≡ ok qs
unfolding add_all check_socks
check_socks-add_all [] ps h = h
check_socks-add_all (s ∷ ss) ps h =
    let (rs, added, rest) =
      >>=-eq-ok (add_port s.port (socks s.name) ps) (λ rs. check_socks ss rs) h in
    rw added (check_socks-add_all ss rs rest)

listeners-add_all :
    (c : Config) {ps : Ports}
    → listener_ports c.xray ≡ ok ps
    → add_all
        ((c.xray.inbounds.vless_ws_port, vless_ws)
          ∷ (c.xray.inbounds.vless_xhttp_port, vless_xhttp)
          ∷ (c.xray.inbounds.local_socks_port, local_socks)
          ∷ (c.xray.api_port, xray_api)
          ∷ [])
        []
      ≡ ok ps
unfolding listener_ports add_all
listeners-add_all c h =
    let i = c.xray.inbounds in
    let (as', e₁, h₁) =
      >>=-eq-ok (add_port i.vless_ws_port vless_ws [])
        (λ as'. add_port i.vless_xhttp_port vless_xhttp as' >>= λ bs.
          add_port i.local_socks_port local_socks bs >>= λ cs. add_port c.xray.api_port xray_api cs)
        h in
    let (bs, e₂, h₂) =
      >>=-eq-ok (add_port i.vless_xhttp_port vless_xhttp as')
        (λ bs.
          add_port i.local_socks_port local_socks bs >>= λ cs. add_port c.xray.api_port xray_api cs)
        h₁ in
    let (cs, e₃, h₃) =
      >>=-eq-ok (add_port i.local_socks_port local_socks bs)
        (λ cs. add_port c.xray.api_port xray_api cs) h₂ in
    rw (e₁, e₂, e₃, h₃)

-- The port of sni_spoof, where it is enabled.
pub spoof_claims : SniSpoofConfig → Ports
spoof_claims s =
    if s.enabled
    then elim (split_host_port (spoof_listen s)) [
      | none ↦ []
      | some (host, port) ↦ (port, sni_spoof_listen) ∷ []
    ]
    else []

rejected_or :
    (bad : Bool) (e : Invalid) (port : ℤ) {p : ℤ}
    → ◌≡◌ {A = Checked ℤ} (if bad then err e else ok port) (ok p)
    → port ≡ p
rejected_or true e port h = cc
rejected_or false e port h = cc

pub listen_port-split :
    (e : Invalid) (listen : String) {p : ℤ}
    → listen_port e listen ≡ ok p
    → (host : String) × (split_host_port listen ≡ some (host, p))
unfolding listen_port
listen_port-split e listen h = elim (Option-cases (split_host_port listen)) [
  | inl q ↦ cc (rw (q, listen_port) at h)
  | inr ((host, port), q) ↦ (
    host,
    q
        ∙ ap (λ (n : ℤ). some (host, n))
            (rejected_or (is_empty host || eqb_ℤ port (pos 0)) e port (rw (q, listen_port) at h)),
  )
]

spoof_claims_on :
    (s : SniSpoofConfig)
    → s.enabled ≡ true
    → {host : String} {p : ℤ} → split_host_port (spoof_listen s) ≡ some (host, p)
    → spoof_claims s ≡ (p, sni_spoof_listen) ∷ []
unfolding spoof_claims
spoof_claims_on s on e = ground arith

spoof_claims_off : (s : SniSpoofConfig) → s.enabled ≡ false → spoof_claims s ≡ []
unfolding spoof_claims
spoof_claims_off s off = ground arith

add_all_one :
    (ps : Ports) {xs : Ports} {p : ℤ} {o : Owner} {qs : Ports}
    → xs ≡ (p, o) ∷ []
    → add_port p o ps ≡ ok qs
    → add_all xs ps ≡ ok qs
unfolding add_all
add_all_one ps e h = rw (e, add_all, h)

add_all_none : {xs : Ports} (ps : Ports) → xs ≡ [] → add_all xs ps ≡ ok ps
unfolding add_all
add_all_none ps e = rw (e, add_all)

pub enabled_rules :
    (on : Bool) (r : Checked (Unit {0}))
    → on ≡ true
    → ◌≡◌ {A = Checked (Unit {0})} (if on then r else ok tt) (ok tt)
    → r ≡ ok tt
enabled_rules true r e h = h
enabled_rules false r e h = cc

module _ (is_cidr : String → Bool) where
  spoof_rules-add_port :
      (s : SniSpoofConfig) (o : OutboundSet) (r : RelayConfig) (ps : Ports)
      → spoof_rules is_cidr s o r ps ≡ ok tt
      → (host : String) × (p : ℤ) × (qs : Ports) × (split_host_port (spoof_listen s)
          ≡ some (host, p))
        × (add_port p sni_spoof_listen ps ≡ ok qs)
  unfolding spoof_rules
  spoof_rules-add_port s o r ps h =
      let (p, listens, h₁) = >>=-eq-ok (listen_port spoof_listen_address (spoof_listen s)) _ h in
      let (_, _, h₂) = >>=-eq-ok (check_spoof_fields is_cidr s o r) _ h₁ in
      let (qs, added, _) = >>=-eq-ok (add_port p sni_spoof_listen ps) _ h₂ in
      let (host, split) = listen_port-split spoof_listen_address (spoof_listen s) listens in
      (host, p, qs, split, added)

  check_spoof-add_all :
      (s : SniSpoofConfig) (o : OutboundSet) (r : RelayConfig) (ps : Ports)
      → check_spoof is_cidr s o r ps ≡ ok tt
      → (qs : Ports) × (add_all (spoof_claims s) ps ≡ ok qs)
  unfolding check_spoof add_all spoof_claims
  check_spoof-add_all s o r ps h = elim (Bool-cases s.enabled) [
    | inl on ↦
        let (host, p, qs, split, added) =
          spoof_rules-add_port s o r ps (enabled_rules s.enabled _ on h) in
        (qs, add_all_one ps (spoof_claims_on s on split) added)
    | inr off ↦ (ps, add_all_none ps (spoof_claims_off s off))
  ]

-- The ports of the listeners, of the users' bandwidth limits, of the public SOCKS inbounds, and of
-- sni_spoof where it is enabled.
abbrev pub claimed_ports : Config → List ℤ
claimed_ports c = map (λ x. x.0) (claims c ++ spoof_claims c.sni_spoof)

-- In a configuration that passes `Validate`, no port of the four listeners, of the users' bandwidth
-- limits, of the public SOCKS inbounds and of an enabled sni_spoof is claimed twice, except 0, which
-- is no port.
pub validate-Apart :
    (is_cidr : String → Bool) (c : Config) → validate is_cidr c ≡ ok tt → Apart (claimed_ports c)
validate-Apart is_cidr c h =
    let passed = validate-Passed is_cidr c h in
    let (_, spoof) =
      check_spoof-add_all is_cidr c.sni_spoof c.xray.outbounds c.relay passed.socks_table
        passed.spoof in
    (add_all-Apart (claims c ++ spoof_claims c.sni_spoof) [] (
      add_all-append (claims c) _ []
        (add_all-append _ _ [] (listeners-add_all c passed.listeners) (
          add_all-append _ _ passed.listeners_table
            (check_users-add_all c.xray.users [] passed.listeners_table passed.users)
            (check_socks-add_all c.xray.inbounds.public_socks passed.users_table passed.socks)))
        spoof)).0
