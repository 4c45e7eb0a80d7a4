-- ===== src/Bandwidth.antt =====
-- The bandwidth limits of the users and the commands that set them (internal/bandwidth/plan.go).
-- `sort` stands for `sort.Slice` by the e-mail address.
pub mod Ports
use mathlib.Core.List.{Perm}
use zeroone.Prelude.Json.{Object}
use mathlib.Core.List.Perm
use zeroone.Prelude.{
  ◌*◌, ◌≡◌, refl, ap, ◌∙◌, String, Bool, true, false, not, ◌&&◌, ◌||◌, List, [], ◌∷◌, ◌++◌, map,
  arith, is_empty, if◌then◌else◌,
}
use zeroone.Prelude.Int.{ℤ, pos, ltb_ℤ, leb_ℤ, ◌+ℤ◌, pos_part, neg_part, wrap64}
use zeroone.Stack.{Config, User}
use zeroone.Stack.Effective.{or_text}
use zeroone.Stack.Text.Decimal.{show_ℤ}
use zeroone.Xray.Inbounds.{is_limited, limited_inbound, limited_inbounds}
use zeroone.Xray.Ports.{port_of}
use zeroone.Links.Names.{concat}

pub record Limit : Type 0 where
  pub email : String
  pub port : ℤ
  pub download_mbps : ℤ
  pub upload_mbps : ℤ

pub record Plan : Type 0 where
  pub device : String
  pub limits : List Limit
  pub nft_script : String
  pub tc_commands : List String
  pub needs_apply : Bool
  pub apply_locked : Bool

abbrev pub skipped : User → Bool
skipped u =
    not u.enabled
    || leb_ℤ u.bandwidth_port (pos 0)
    || (leb_ℤ u.download_mbps (pos 0) && leb_ℤ u.upload_mbps (pos 0))

abbrev pub limit_of : User → Limit
limit_of u = record {
  email = u.email;
  port = u.bandwidth_port;
  download_mbps = u.download_mbps;
  upload_mbps = u.upload_mbps;
}

-- The loop over the users.
unfoldable pub limits_of : List User → List Limit
limits_of [] = []
limits_of (u ∷ us) = let rest = limits_of us in if skipped u then rest else limit_of u ∷ rest

-- The rules of the limits from the index `i` on.
nft_rules : ℤ → List Limit → List String
nft_rules i [] = []
nft_rules i (l ∷ ls) =
    concat (
      "    tcp sport "
      ∷ show_ℤ l.port
      ∷ " meta mark set "
      ∷ show_ℤ (pos 41000 +ℤ i +ℤ pos 1)
      ∷ "\n"
      ∷ [])
    ∷ nft_rules (i +ℤ pos 1) ls

-- `NFTScript`
unfoldable pub nft_script : List Limit → String
unfolding nft_rules
nft_script ls = concat (
    "table inet xray_bw {\n"
    ∷ "  chain output {\n"
    ∷ "    type route hook output priority mangle; policy accept;\n"
    ∷ (nft_rules (pos 0) ls ++ ("  }\n" ∷ "}\n" ∷ [])))

abbrev mbit : ℤ → String
mbit n = concat (show_ℤ n ∷ "mbit" ∷ [])

-- `max(64, limit.UploadMbps*128)`
abbrev burst : ℤ → ℤ
burst n =
    let kilobytes = wrap64 (pos_part n * 128) (neg_part n * 128) in
    if ltb_ℤ (pos 64) kilobytes then kilobytes else pos 64

download_commands : String → ℤ → Limit → List String
download_commands dev i l =
    let class_id = concat ("1:" ∷ show_ℤ (pos 100 +ℤ i +ℤ pos 1) ∷ []) in
    let rate = mbit l.download_mbps in
    concat (
      "tc class replace dev " ∷ dev ∷ " parent 1:1 classid " ∷ class_id ∷ " htb rate " ∷ rate
      ∷ " ceil " ∷ rate ∷ [])
    ∷ concat ("tc qdisc replace dev " ∷ dev ∷ " parent " ∷ class_id ∷ " fq" ∷ [])
    ∷ concat (
        "tc filter replace dev "
        ∷ dev
        ∷ " parent 1: protocol ip prio "
        ∷ show_ℤ (pos 100 +ℤ i +ℤ pos 1)
        ∷ " handle "
        ∷ show_ℤ (pos 41000 +ℤ i +ℤ pos 1)
        ∷ " fw flowid "
        ∷ class_id
        ∷ [])
    ∷ []

upload_commands : String → ℤ → Limit → List String
upload_commands dev i l =
    concat (
      "tc filter replace dev "
      ∷ dev
      ∷ " ingress protocol ip prio "
      ∷ show_ℤ (pos 100 +ℤ i +ℤ pos 1)
      ∷ " flower ip_proto tcp dst_port "
      ∷ show_ℤ l.port
      ∷ " action police rate "
      ∷ mbit l.upload_mbps
      ∷ " burst "
      ∷ show_ℤ (burst l.upload_mbps)
      ∷ "k conform-exceed drop"
      ∷ [])
    ∷ []

-- The loop over the limits from the index `i` on.
limit_commands : String → ℤ → List Limit → List String
unfolding download_commands upload_commands
limit_commands dev i [] = []
limit_commands dev i (l ∷ ls) =
    (if ltb_ℤ (pos 0) l.download_mbps then download_commands dev i l else [])
    ++ (if ltb_ℤ (pos 0) l.upload_mbps then upload_commands dev i l else [])
    ++ limit_commands dev (i +ℤ pos 1) ls

abbrev clear_commands : String → List String
clear_commands dev =
    "nft delete table inet xray_bw"
    ∷ concat ("tc qdisc del dev " ∷ dev ∷ " root" ∷ [])
    ∷ concat ("tc qdisc del dev " ∷ dev ∷ " clsact" ∷ [])
    ∷ concat ("tc qdisc replace dev " ∷ dev ∷ " root fq" ∷ [])
    ∷ []

abbrev set_up_commands : String → List String
set_up_commands dev =
    "nft -f <generated xray_bw script>"
    ∷ concat ("tc qdisc del dev " ∷ dev ∷ " root" ∷ [])
    ∷ concat ("tc qdisc del dev " ∷ dev ∷ " clsact" ∷ [])
    ∷ concat ("tc qdisc add dev " ∷ dev ∷ " root handle 1: htb default 999" ∷ [])
    ∷ concat (
        "tc class replace dev " ∷ dev ∷ " parent 1: classid 1:1 htb rate 1000mbit ceil 1000mbit"
        ∷ [])
    ∷ concat (
        "tc class replace dev " ∷ dev ∷ " parent 1:1 classid 1:999 htb rate 1000mbit ceil 1000mbit"
        ∷ [])
    ∷ concat ("tc qdisc replace dev " ∷ dev ∷ " parent 1:999 fq" ∷ [])
    ∷ concat ("tc qdisc add dev " ∷ dev ∷ " clsact" ∷ [])
    ∷ []

-- `TCCommands`
unfoldable pub tc_commands : String → List Limit → List String
unfolding limit_commands
tc_commands dev [] = clear_commands dev
tc_commands dev (l ∷ ls) = set_up_commands dev ++ limit_commands dev (pos 0) (l ∷ ls)

abbrev some_limits : List Limit → Bool
some_limits [] = false
some_limits (l ∷ ls) = true

module _ (sort : List Limit → List Limit) where
  -- `ActiveLimits`
  unfoldable pub active_limits : Config → List Limit
  active_limits c = sort (limits_of c.xray.users)

  -- `BuildPlan`
  unfoldable pub build_plan : Config → Bool → Plan
  build_plan c allow_apply =
      let device = or_text c.server.bandwidth_device "eth0" in
      let limits = active_limits c in
      record {
        device = device;
        limits = limits;
        nft_script = nft_script limits;
        tc_commands = tc_commands device limits;
        needs_apply = some_limits limits;
        apply_locked = not allow_apply;
      }
