-- ===== src/XrayInstall/Back.antt =====
-- The rollback of an update (internal/xrayinstall/swap.go).
use zeroone.Prelude.{
  ◌≡◌, ◌≢◌, refl, inl, inr, ap, sym, ◌∙◌, String, Bool, true, false, Option, none, some, List, ◌∷◌,
  str_eq, str_eq_iff, Bool-cases, str_eq_refl, is_empty,
}
use zeroone.Prelude.Int.{ℤ}
use zeroone.Plugins.Listen.{option-cases}
use zeroone.XrayInstall.Versions.{validate_version_token}
use zeroone.XrayInstall.Commit.{
  InstallState, Version, Tree, Extracted, Faults, load_state, xray_in, without, linked, keep_only,
  rotate_old_versions, save_install, place_geo_site, place_geo_ip, place_geo, relink, fill, replace,
  commit_install, second, rolled_back, rollback,
}

some-eq {ℓ} : {A : Type ℓ} → (x y : A) → some x ≡ some y → x ≡ y
some-eq x y e = cc

rollback-eq-some :
    (now : ℤ) (t t' : Tree)
    → rollback now t ≡ some t'
    → (w : Version) × (second t.versions ≡ some w) × (rolled_back now w t ≡ t')
unfolding rollback
rollback-eq-some now t t' e = elim (option-cases (second t.versions)) [
  | inl alone ↦ let whole : rollback now t ≡ none = rw (alone, rollback) refl in cc
  | inr (w, found) ↦
      let whole : rollback now t ≡ some (rolled_back now w t) = rw (found, rollback) refl in
      (w, found, some-eq _ _ (sym whole ∙ e))
]

-- A second rollback changes nothing: where a rollback has succeeded, the next one leaves `bin/xray`
-- where it is, and writes the version in use as the previous one too.
pub rollback-stays :
    (now later : ℤ) (t t' t'' : Tree)
    → rollback now t ≡ some t'
    → rollback later t' ≡ some t''
    → (t''.link ≡ t'.link)
      × ((load_state t'').previous_version ≡ (load_state t'').installed_version)
unfolding rollback
rollback-stays now later t t' t'' e h =
    let (w, found, first) = rollback-eq-some now t t' e in
    let (w', found', again) = rollback-eq-some later t' t'' h in
    let same : w ≡ w' =
      some-eq w w' (sym found ∙ ap (λ (u : Tree). second u.versions) first ∙ found') in
    let once : t'.link ≡ some w.name = sym (ap (λ (u : Tree). u.link) first) in
    let twice : t''.link ≡ some w'.name = sym (ap (λ (u : Tree). u.link) again) in
    let before : (load_state t').installed_version ≡ w.name =
      sym (ap (λ (u : Tree). (load_state u).installed_version) first) in
    let previous : (load_state t').installed_version ≡ (load_state t'').previous_version =
      ap (λ (u : Tree). (load_state u).previous_version) again in
    let installed : w'.name ≡ (load_state t'').installed_version =
      ap (λ (u : Tree). (load_state u).installed_version) again in
    let names : w.name ≡ w'.name = ap (λ (v : Version). v.name) same in
    (twice ∙ ap some (sym names) ∙ sym once, sym previous ∙ before ∙ names ∙ installed)

-- No system call fails.
abbrev pub no_faults : Faults
no_faults = record { fails = λ stage. false; torn = false }

place_geo_site-kept :
    (sha : String → Option String) (file : Option String) (name : String) (s : InstallState)
    (t : Tree)
    → let r = (place_geo_site sha no_faults file name s t).0 in
      (r.versions ≡ rotate_old_versions name t.versions) × (r.link ≡ t.link)
unfolding place_geo_site save_install
place_geo_site-kept sha none name s t = (refl, refl)
place_geo_site-kept sha (some file) name s t = (refl, refl)

place_geo_ip-kept :
    (sha : String → Option String) (x : Extracted) (file : Option String) (name : String)
    (s : InstallState) (t : Tree)
    → let r = (place_geo_ip sha no_faults x file name s t).0 in
      (r.versions ≡ rotate_old_versions name t.versions) × (r.link ≡ t.link)
unfolding place_geo_ip
place_geo_ip-kept sha x none name s t = place_geo_site-kept sha x.geo_site_file name s t
place_geo_ip-kept sha x (some file) name s t = place_geo_site-kept sha x.geo_site_file name _ _

place_geo-kept :
    (sha : String → Option String) (include_geo : Bool) (x : Extracted) (name : String)
    (s : InstallState) (t : Tree)
    → let r = (place_geo sha no_faults include_geo x name s t).0 in
      (r.versions ≡ rotate_old_versions name t.versions) × (r.link ≡ t.link)
unfolding place_geo save_install
place_geo-kept sha false x name s t = (refl, refl)
place_geo-kept sha true x name s t = place_geo_ip-kept sha x x.geo_ip_file name s t

-- The directories and the link after an update that succeeds.
commit_install-kept :
    (sha : String → Option String) (include_geo : Bool) (detected : String) (x : Extracted)
    (version source binary_sha : String) (now : ℤ) (t : Tree)
    → is_empty version ≡ false
    → validate_version_token version ≡ true
    → let r =
        (commit_install sha no_faults include_geo detected x version source binary_sha now t).0 in
      (r.versions
        ≡ rotate_old_versions version
            (record { name = version; xray = some x.binary } ∷ without version t.versions))
      × (r.link ≡ some version)
unfolding commit_install replace fill relink
commit_install-kept sha include_geo detected x version source binary_sha now t named sound =
    rw (named, named, sound) (place_geo-kept sha include_geo x version _ _)

kept_versions :
    (name : String) (new v : Version) (rest : List Version)
    → str_eq v.name name ≡ false
    → rotate_old_versions name (new ∷ without name (v ∷ rest))
      ≡ new ∷ v ∷ keep_only name (without name rest)
unfolding rotate_old_versions without
kept_versions name new v rest other = rw (other, rotate_old_versions) refl

differ : (a b : String) → a ≢ b → str_eq a b ≡ false
differ a b ne = elim (Bool-cases (str_eq a b)) [
  | inl same ↦ absurd (ne ((str_eq_iff a b).0 same))
  | inr other ↦ other
]

second-of : (v w : Version) (vs : List Version) → second (v ∷ w ∷ vs) ≡ some w
unfolding second
second-of v w vs = refl

second-link :
    (t : Tree) (new v : Version) (rest : List Version) (binary : String)
    → t.versions ≡ new ∷ v ∷ rest
    → t.link ≡ some v.name
    → str_eq new.name v.name ≡ false
    → v.xray ≡ some binary
    → linked t ≡ some binary
unfolding linked xray_in
second-link t new v rest binary versions link other held =
    rw (link, linked) (ap (xray_in v.name) versions ∙ rw (other, str_eq_refl v.name) held)

-- A rollback undoes an update: where the newest directory has a binary, an update to a valid version
-- of another name in which no system call fails, and then a rollback, lead `bin/xray` back to that
-- directory and that binary.
pub rollback-commit_install :
    (sha : String → Option String) (include_geo : Bool) (detected : String) (x : Extracted)
    (version source binary_sha : String) (now later : ℤ) (t : Tree) (v : Version)
    (rest : List Version) (binary : String)
    → t.versions ≡ v ∷ rest
    → v.xray ≡ some binary
    → is_empty version ≡ false
    → validate_version_token version ≡ true
    → v.name ≢ version
    → let r =
        (commit_install sha no_faults include_geo detected x version source binary_sha now t).0 in
      (u : Tree) × (rollback later r ≡ some u) × (u.link ≡ some v.name) × (linked u ≡ some binary)
unfolding rollback
rollback-commit_install sha include_geo detected x version source binary_sha now later t v rest
      binary newest held named sound other =
    let r =
      (commit_install sha no_faults include_geo detected x version source binary_sha now t).0 in
    let new : Version = record { name = version; xray = some x.binary } in
    let (after, link) =
      commit_install-kept sha include_geo detected x version source binary_sha now t named sound in
    let versions : r.versions ≡ new ∷ v ∷ keep_only version (without version rest) =
      after
      ∙ ap (λ vs. rotate_old_versions version (new ∷ without version vs)) newest
      ∙ kept_versions version new v rest (differ v.name version other) in
    let before : second r.versions ≡ some v = ap second versions ∙ second-of new v _ in
    (
      rolled_back later v r,
      rw (before, rollback) refl,
      refl,
      second-link (rolled_back later v r) new v _ binary versions refl
          (differ version v.name (λ e. other (sym e))) held,
    )
