-- ===== src/Xray/Ports.antt =====
-- The ports of the generated inbounds (internal/xray/generate.go) and those that `Validate` counts
-- (internal/stack/config.go).
use zeroone.Prelude.{
  ◌≡◌, ◌≢◌, refl, ℕ, ◌+◌, ◌≤◌, String, Bool, true, false, ◌&&◌, Option, some, List, [], ◌∷◌, ◌++◌,
  map, arith, if◌then◌else◌,
}
use zeroone.Prelude.Int.{ℤ, pos, eqb_ℤ}
use zeroone.Prelude.Result.{ok}
use zeroone.Prelude.Json.{Json, number, Object, get}
use zeroone.Stack.{Config, User, SocksInbound}
use zeroone.Stack.Rules.{Owner, bandwidth, socks}
use zeroone.Stack.Validate.{validate}
use zeroone.Stack.Valid.Table.{Apart, occurs}
use zeroone.Stack.Valid.Apart.{claimed_ports, spoof_claims, validate-Apart}
use zeroone.Xray.Inbounds.{
  or_port, is_limited, limited_inbound, limited_inbounds, socks_inbound, socks_inbounds,
  public_inbound, xhttp_inbound, local_socks_inbound, api_inbound, inbounds, vless_ws_inbound,
  vless_xhttp_inbound,
}

abbrev number_of : Option Json → ℤ
number_of (some (number n)) = n
number_of _ = pos 0

-- The port that an inbound listens on.
unfoldable pub port_of : Object → ℤ
port_of o = number_of (get "port" o)

unfoldable pub count : ℤ → List ℤ → ℕ
count p [] = 0
count p (q ∷ qs) = (if eqb_ℤ q p then 1 else 0) + count p qs

count-map-append {ℓ} :
    {A : Type ℓ}
    → (p : ℤ) (f : A → ℤ) (xs ys : List A)
    → count p (map f (xs ++ ys)) ≡ count p (map f xs) + count p (map f ys)
unfolding count
count-map-append p f [] ys = omega arith
count-map-append p f (x ∷ xs) ys = omega (arith, count-map-append p f xs ys)

count-occurs : (p : ℤ) (ps : List ℤ) → occurs p ps ≡ false → count p ps ≡ 0
unfolding count
count-occurs p [] h = refl
count-occurs p (q ∷ qs) h = ground (arith, count-occurs p qs)

count-Apart : (p : ℤ) (ps : List ℤ) → p ≢ pos 0 → Apart ps → count p ps ≤ 1
unfolding count
count-Apart p [] nonzero h = omega arith
count-Apart p (q ∷ qs) nonzero (free, apart) =
    ground (arith, free, count-occurs q qs, count-Apart p qs nonzero apart)

count-limited_step :
    (p : ℤ) (u : User) (own : Bool) (os : List Object) {n : ℕ}
    → count p (map port_of os) ≤ n
    → count p (map port_of (if own then limited_inbound u ∷ os else os))
      ≤ (if eqb_ℤ u.bandwidth_port p then 1 else 0) + n
unfolding count port_of limited_inbound
count-limited_step p u true os h = omega arith
count-limited_step p u false os h = omega arith

count-limited :
    (p : ℤ) (us : List User)
    → count p (map port_of (limited_inbounds us)) ≤ count p (map (λ u. u.bandwidth_port) us)
unfolding count limited_inbounds
count-limited p [] = omega arith
count-limited p (u ∷ us) =
    count-limited_step p u (u.enabled && is_limited u) (limited_inbounds us) (count-limited p us)

count-users :
    (p : ℤ) (us : List User)
    → count p (map (λ u. u.bandwidth_port) us)
      ≡ count p (
          map
            (λ (x : ℤ × Owner). x.0)
            (map (λ (u : User). (u.bandwidth_port, bandwidth u.email)) us))
unfolding count
count-users p [] = refl
count-users p (u ∷ us) = omega (arith, count-users p us)

count-socks :
    (p : ℤ) (ss : List SocksInbound)
    → count p (map port_of (socks_inbounds ss))
      ≡ count p
          (map (λ (x : ℤ × Owner). x.0) (map (λ (s : SocksInbound). (s.port, socks s.name)) ss))
unfolding count socks_inbounds port_of socks_inbound
count-socks p [] = refl
count-socks p (s ∷ ss) = omega (arith, count-socks p ss)

-- The ports of the generated inbounds.
abbrev pub ports : Config → List ℤ
ports c = map port_of (inbounds c)

abbrev hit : ℤ → ℤ → ℕ
hit p q = if eqb_ℤ q p then 1 else 0

count-inbounds :
    (c : Config) (p : ℤ)
    → count p (ports c)
      ≡ hit p c.xray.inbounds.vless_ws_port
        + (count p (map port_of (socks_inbounds c.xray.inbounds.public_socks))
            + (count p (map port_of (limited_inbounds c.xray.users))
                + (hit p (or_port c.xray.inbounds.local_socks_port (pos 10808))
                    + (hit p c.xray.inbounds.vless_xhttp_port
                        + hit p (or_port c.xray.api_port (pos 10085))))))
unfolding inbounds count port_of public_inbound xhttp_inbound local_socks_inbound api_inbound
    vless_ws_inbound vless_xhttp_inbound
count-inbounds c p =
    let tail =
      local_socks_inbound c.xray.inbounds.local_socks_port
      ∷ xhttp_inbound c
      ∷ api_inbound c.xray.api_port
      ∷ [] in
    omega (
      arith,
      count-map-append p port_of (socks_inbounds c.xray.inbounds.public_socks)
          (limited_inbounds c.xray.users ++ tail),
      count-map-append p port_of (limited_inbounds c.xray.users) tail,
    )

count-claimed :
    (c : Config) (p : ℤ)
    → hit p c.xray.inbounds.vless_ws_port
        + (count p (map port_of (socks_inbounds c.xray.inbounds.public_socks))
            + (count p (map (λ (u : User). u.bandwidth_port) c.xray.users)
                + (hit p c.xray.inbounds.local_socks_port
                    + (hit p c.xray.inbounds.vless_xhttp_port + hit p c.xray.api_port))))
      ≤ count p (claimed_ports c)
unfolding count
count-claimed c p =
    let users : List (ℤ × Owner) =
      map (λ (u : User). (u.bandwidth_port, bandwidth u.email)) c.xray.users in
    let socks_ports : List (ℤ × Owner) =
      map (λ (s : SocksInbound). (s.port, socks s.name)) c.xray.inbounds.public_socks in
    omega (
      arith,
      count-users p c.xray.users,
      count-socks p c.xray.inbounds.public_socks,
      count-map-append p (λ x. x.0) (users ++ socks_ports) (spoof_claims c.sni_spoof),
      count-map-append p (λ x. x.0) users socks_ports,
    )

or_port-set : (port d : ℤ) → port ≢ pos 0 → or_port port d ≡ port
unfolding or_port
or_port-set port d set = ground arith

-- The generated inbounds do not listen on one port twice: in a configuration that passes `Validate`
-- and in which neither the port of the local SOCKS inbound nor that of the API is left at 0, every
-- port but 0 is the port of at most one generated inbound.
pub inbounds-Apart :
    (is_cidr : String → Bool) (c : Config)
    → validate is_cidr c ≡ ok tt
    → c.xray.inbounds.local_socks_port ≢ pos 0
    → c.xray.api_port ≢ pos 0
    → (p : ℤ) → p ≢ pos 0
    → count p (ports c) ≤ 1
inbounds-Apart is_cidr c valid local_set api_set p nonzero =
    let inbound_ports =
      rw
        (
          or_port-set c.xray.inbounds.local_socks_port (pos 10808) local_set,
          or_port-set c.xray.api_port (pos 10085) api_set,
        )
        at (count-inbounds c p) in
    omega (
      arith,
      inbound_ports,
      count-claimed c p,
      count-limited p c.xray.users,
      count-Apart p (claimed_ports c) nonzero (validate-Apart is_cidr c valid),
    )
