-- ===== src/XrayInstall/Kept.antt =====
-- The binary in use through an update that may fail at any system call, and through a rollback
-- (internal/xrayinstall/swap.go).
use zeroone.Prelude.{
  ◌≡◌, refl, sym, ◌∙◌, inl, inr, ◌⊎◌, arith, String, Bool, true, false, not, ◌||◌, ◌&&◌, Option,
  none, some, List, [], ◌∷◌, str_eq, str_eq_iff, is_empty, if◌then◌else◌, Bool-cases,
}
use zeroone.Prelude.Int.{ℤ}
use zeroone.XrayInstall.Versions.{validate_version_token}
use zeroone.XrayInstall.Commit.{
  link_dir, symlink, swap, move, chmod, remove, make, ensure, geo_dir, geo_ip_move, geo_site_move,
  InstallState, Version, Tree, Extracted, Faults, xray_in, without, linked, has_dir, tear,
  rotate_old_versions, save_install, place_geo_site, place_geo_ip, place_geo, relink, fill, replace,
  commit_install,
}

-- The first directory is that of the version, with the binary.
abbrev Heads : String → String → List Version → Type 0
Heads name binary [] = ⊥
Heads name binary (v ∷ vs) = (v.name ≡ name) × (v.xray ≡ some binary)

-- `bin/xray` names the newest directory, which has the binary.
abbrev Leads : String → String → Tree → Type 0
Leads name binary t = (t.link ≡ some name) × Heads name binary t.versions

rotate-Heads :
    (name binary : String) (vs : List Version)
    → Heads name binary vs
    → Heads name binary (rotate_old_versions name vs)
unfolding rotate_old_versions
rotate-Heads name binary [] h = h
rotate-Heads name binary (v ∷ []) h = h
rotate-Heads name binary (v ∷ w ∷ vs) h = h

xray_in-Heads :
    (name binary : String) (vs : List Version)
    → Heads name binary vs
    → xray_in name vs ≡ some binary
unfolding xray_in
xray_in-Heads name binary [] h = absurd h
xray_in-Heads name binary (v ∷ vs) (e, x) = ground (arith, e, x, str_eq_iff v.name name)

linked-Leads : (name binary : String) (t : Tree) → Leads name binary t → linked t ≡ some binary
unfolding linked
linked-Leads name binary t (e, h) = rw (e, linked) (xray_in-Heads name binary t.versions h)

xray_in-without :
    (name other : String) (vs : List Version)
    → str_eq name other ≡ false
    → xray_in other (without name vs) ≡ xray_in other vs
unfolding xray_in without
xray_in-without name other [] ne = refl
xray_in-without name other (v ∷ vs) ne = ground (
  arith,
  ne,
  xray_in-without name other vs ne,
  str_eq_iff v.name name,
  str_eq_iff v.name other,
  str_eq_iff name other,
)

xray_in-tear :
    (torn : Bool) (name other : String) (vs : List Version)
    → str_eq name other ≡ false
    → xray_in other (tear torn name vs) ≡ xray_in other vs
unfolding xray_in tear
xray_in-tear torn name other vs ne = elim (Bool-cases (torn && has_dir name vs)) [
  | inl e ↦ rw (e, ne) (xray_in-without name other vs ne)
  | inr e ↦ rw e refl
]

module _ (sha : String → Option String) (f : Faults) (name binary : String) where
  save_install-Leads :
      (s : InstallState) (t : Tree)
      → Leads name binary t
      → Leads name binary (save_install sha f name s t).0
  unfolding save_install
  save_install-Leads s t l = ground (arith, l, rotate-Heads name binary t.versions l.1)

  place_geo_site-Leads :
      (file : Option String) (s : InstallState) (t : Tree)
      → Leads name binary t
      → Leads name binary (place_geo_site sha f file name s t).0
  unfolding place_geo_site
  place_geo_site-Leads none s t l = save_install-Leads s t l
  place_geo_site-Leads (some file) s t l = elim (Bool-cases (f.fails geo_site_move)) [
    | inl e ↦ rw (e, place_geo_site) l
    | inr e ↦ rw (e, place_geo_site) (save_install-Leads _ _ l)
  ]

  place_geo_ip-Leads :
      (x : Extracted) (file : Option String) (s : InstallState) (t : Tree)
      → Leads name binary t
      → Leads name binary (place_geo_ip sha f x file name s t).0
  unfolding place_geo_ip
  place_geo_ip-Leads x none s t l = place_geo_site-Leads x.geo_site_file s t l
  place_geo_ip-Leads x (some file) s t l = elim (Bool-cases (f.fails geo_ip_move)) [
    | inl e ↦ rw (e, place_geo_ip) l
    | inr e ↦ rw (e, place_geo_ip) (place_geo_site-Leads x.geo_site_file _ _ l)
  ]

  place_geo-Leads :
      (include_geo : Bool) (x : Extracted) (s : InstallState) (t : Tree)
      → Leads name binary t
      → Leads name binary (place_geo sha f include_geo x name s t).0
  unfolding place_geo
  place_geo-Leads false x s t l = save_install-Leads s t l
  place_geo-Leads true x s t l = elim (Bool-cases (f.fails geo_dir)) [
    | inl e ↦ rw (e, place_geo) l
    | inr e ↦ rw (e, place_geo) (place_geo_ip-Leads x x.geo_ip_file s t l)
  ]

linked-in :
    (before : String) (t : Tree) (old : String)
    → t.link ≡ some before
    → linked t ≡ some old
    → xray_in before t.versions ≡ some old
unfolding linked
linked-in before t old l h =
    let whole : linked t ≡ xray_in before t.versions = rw (l, linked) refl in sym whole ∙ h

-- The old binary is still in use and there is an error, or the new one is in use.
abbrev pub Keeps : String → String → Tree × Bool → Type 0
Keeps old new r = (linked r.0 ≡ some old) × (r.1 ≡ false) ⊎ (linked r.0 ≡ some new)

linked-other :
    (before : String) (t : Tree) (vs : List Version) (old : String)
    → t.link ≡ some before
    → xray_in before vs ≡ some old
    → linked (record t { versions = vs }) ≡ some old
unfolding linked
linked-other before t vs old e h = rw (e, linked) h

Keeps-if :
    (b : Bool) (r r' : Tree × Bool) {old new : String}
    → Keeps old new r
    → Keeps old new r'
    → Keeps old new (if b then r else r')
Keeps-if true r r' k l = k
Keeps-if false r r' k l = l

xray_in-cons :
    (name before : String) (xray : Option String) (vs : List Version)
    → str_eq name before ≡ false
    → xray_in before (record { name = name; xray = xray } ∷ vs) ≡ xray_in before vs
unfolding xray_in
xray_in-cons name before xray vs ne = rw ne

module _ (sha : String → Option String) (f : Faults) (include_geo : Bool) (x : Extracted)
    (name before old : String) (other : str_eq name before ≡ false) (s : InstallState) where
  relink-Keeps :
      (t : Tree)
      → linked t ≡ some old
      → Heads name x.binary t.versions
      → Keeps old x.binary (relink sha f include_geo x name s t)
  unfolding relink
  relink-Keeps t l h =
      Keeps-if (f.fails link_dir || f.fails symlink || f.fails swap) _ _ (inl (l, refl)) (
        inr (
          linked-Leads name x.binary _ (
            place_geo-Leads sha f name x.binary include_geo x s (record t { link = some name })
              (refl, h))))

  fill-Keeps :
      (others : List Version) (t : Tree)
      → t.link ≡ some before
      → xray_in before others ≡ some old
      → Keeps old x.binary (fill sha f include_geo x name s others t)
  unfolding fill
  fill-Keeps others t l h =
      let held = λ (xray : Option String).
        linked-other before t (record { name = name; xray = xray } ∷ others) old l
          (xray_in-cons name before xray others other ∙ h) in
      Keeps-if (f.fails move) _ _ (inl (held none, refl)) (
        Keeps-if (f.fails chmod) _ _ (inl (held (some x.binary), refl))
          (relink-Keeps _ (held (some x.binary)) (refl, refl)))

  replace-Keeps :
      (t : Tree)
      → t.link ≡ some before
      → xray_in before t.versions ≡ some old
      → Keeps old x.binary (replace sha f include_geo x name s t)
  unfolding replace
  replace-Keeps t l h =
      let rest = xray_in-without name before t.versions other ∙ h in
      Keeps-if (f.fails remove) _ _
        (inl (
          linked-other before t _ old l (xray_in-tear f.torn name before t.versions other ∙ h),
          refl,
        ))
        (Keeps-if (f.fails make) _ _ (inl (linked-other before t _ old l rest, refl))
          (fill-Keeps (without name t.versions) t l rest))

-- An update leaves a binary in use: where `bin/xray` leads to a binary, and the version to install, or
-- the detected one where none is named, is another one than `bin/xray` names, then whichever system
-- calls of `commitInstall` fail, `bin/xray` leads to that binary and there is an error, or it leads to
-- the new binary.
pub commit_install-Keeps :
    (sha : String → Option String) (f : Faults) (include_geo : Bool) (detected : String)
    (x : Extracted) (version source binary_sha : String) (now : ℤ) (t : Tree) (before old : String)
    → t.link ≡ some before
    → linked t ≡ some old
    → str_eq (if is_empty version then detected else version) before ≡ false
    → Keeps old x.binary
        (commit_install sha f include_geo detected x version source binary_sha now t)
unfolding commit_install
commit_install-Keeps sha f include_geo detected x version source binary_sha now t before old l h
      ne =
    let target = if is_empty version then detected else version in
    Keeps-if (f.fails ensure) _ _ (inl (h, refl)) (
      Keeps-if (is_empty target || not (validate_version_token target)) _ _ (inl (h, refl))
        (replace-Keeps sha f include_geo x target before old ne _ t l (linked-in before t old l h)))
