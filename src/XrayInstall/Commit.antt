-- ===== src/XrayInstall/Commit.antt =====
-- The override tree of the installer (internal/xrayinstall/swap.go, state.go, resolve.go). A file is the
-- text that it holds; a system call that fails leaves the tree as it was, but for the removal of a
-- directory, which may have removed the file in it. `sha` stands for `FileSHA256`, none where it
-- fails, and `detected` for what `DetectVersion` reads from the staged binary.
use zeroone.Prelude.{
  String, Bool, true, false, not, ◌&&◌, ◌||◌, Option, none, some, List, [], ◌∷◌, str_eq, is_empty,
  if◌then◌else◌,
}
use zeroone.Prelude.Int.{ℤ, pos}
use zeroone.XrayInstall.Versions.{validate_version_token}

-- `State`
pub record InstallState : Type 0 where
  pub installed_version : String
  pub installed_at : ℤ
  pub source : String
  pub binary_sha256 : String
  pub geo_ip_sha256 : String
  pub geo_site_sha256 : String
  pub last_check_unix : ℤ
  pub last_check_latest : String
  pub previous_version : String

-- A directory of `versions`, with the `xray` in it.
pub record Version : Type 0 where
  pub name : String
  pub xray : Option String

-- The tree: the directories by their time of change, the newest one first; the version that `bin/xray`
-- names; the geo files; and what `state.json` holds, none where it is missing or not readable.
pub record Tree : Type 0 where
  pub versions : List Version
  pub link : Option String
  pub geo_ip : Option String
  pub geo_site : Option String
  pub state : Option InstallState

-- `extractedAssets`; a geo file is none where the archive has none.
pub record Extracted : Type 0 where
  pub binary : String
  pub geo_ip_file : Option String
  pub geo_site_file : Option String

-- The system calls of `commitInstall`, in their order.
pub data Stage : Type 0 where
  ensure remove make move chmod link_dir symlink swap geo_dir geo_ip_move geo_site_move save : Stage

-- Which calls fail, and whether a failed removal has removed the binary.
pub record Faults : Type 0 where
  pub fails : Stage → Bool
  pub torn : Bool

abbrev no_state : InstallState
no_state = record {
  installed_version = "";
  installed_at = pos 0;
  source = "";
  binary_sha256 = "";
  geo_ip_sha256 = "";
  geo_site_sha256 = "";
  last_check_unix = pos 0;
  last_check_latest = "";
  previous_version = "";
}

-- `LoadState`, with the zero `State` for its error too.
abbrev pub load_state : Tree → InstallState
load_state t = elim t.state [ none ↦ no_state | some s ↦ s ]

unfoldable pub xray_in : String → List Version → Option String
xray_in name [] = none
xray_in name (v ∷ vs) = let rest = xray_in name vs in if str_eq v.name name then v.xray else rest

unfoldable pub without : String → List Version → List Version
without name [] = []
without name (v ∷ vs) = let rest = without name vs in if str_eq v.name name then rest else v ∷ rest

-- The binary that `bin/xray` leads to.
unfoldable pub linked : Tree → Option String
linked t = elim t.link [ none ↦ none | some name ↦ xray_in name t.versions ]

unfoldable pub has_dir : String → List Version → Bool
has_dir name [] = false
has_dir name (v ∷ vs) = str_eq v.name name || has_dir name vs

-- The failed removal of a directory; one that has lost its file has just been changed.
unfoldable pub tear : Bool → String → List Version → List Version
tear torn name vs =
    if torn && has_dir name vs then record { name = name; xray = none } ∷ without name vs else vs

-- The directories but those from the third one on that are not the kept one.
unfoldable pub keep_only : String → List Version → List Version
keep_only name [] = []
keep_only name (v ∷ vs) =
    let rest = keep_only name vs in if str_eq v.name name then v ∷ rest else rest

-- `rotateOldVersions`, where every removal succeeds.
unfoldable pub rotate_old_versions : String → List Version → List Version
unfolding keep_only
rotate_old_versions name [] = []
rotate_old_versions name (v ∷ []) = v ∷ []
rotate_old_versions name (v ∷ w ∷ vs) = v ∷ w ∷ keep_only name vs

abbrev or_old : Option String → String → String
or_old none old = old
or_old (some new) old = new

module _ (sha : String → Option String) (f : Faults) where
  -- The end: `SaveState`, then the rotation.
  unfoldable pub save_install : String → InstallState → Tree → Tree × Bool
  save_install version s t =
      if f.fails save
      then (t, false)
      else (record t { versions = rotate_old_versions version t.versions; state = some s }, true)

  -- The second round of the loop over the geo files.
  unfoldable pub place_geo_site : Option String → String → InstallState → Tree → Tree × Bool
  place_geo_site none version s t = save_install version s t
  place_geo_site (some file) version s t =
      if f.fails geo_site_move
      then (t, false)
      else save_install version (record s { geo_site_sha256 = or_old (sha file) s.geo_site_sha256 })
          (record t { geo_site = some file })

  -- The first round.
  unfoldable pub place_geo_ip :
      Extracted → Option String → String → InstallState → Tree → Tree × Bool
  place_geo_ip x none version s t = place_geo_site x.geo_site_file version s t
  place_geo_ip x (some file) version s t =
      if f.fails geo_ip_move
      then (t, false)
      else place_geo_site x.geo_site_file version
          (record s { geo_ip_sha256 = or_old (sha file) s.geo_ip_sha256 })
          (record t { geo_ip = some file })

  unfoldable pub place_geo : Bool → Extracted → String → InstallState → Tree → Tree × Bool
  place_geo include_geo x version s t =
      if not include_geo
      then save_install version s t
      else if f.fails geo_dir
      then (t, false)
      else place_geo_ip x x.geo_ip_file version s t

  -- The new link, and on.
  unfoldable pub relink : Bool → Extracted → String → InstallState → Tree → Tree × Bool
  relink include_geo x version s t =
      if f.fails link_dir || f.fails symlink || f.fails swap
      then (t, false)
      else place_geo include_geo x version s (record t { link = some version })

  -- The new directory without its binary, and on.
  unfoldable pub fill : Bool → Extracted → String → InstallState → List Version → Tree → Tree × Bool
  fill include_geo x version s others t =
      let placed = record t {
        versions = record { name = version; xray = some x.binary } ∷ others;
      } in
      if f.fails move
      then (record t { versions = record { name = version; xray = none } ∷ others }, false)
      else if f.fails chmod
      then (placed, false)
      else relink include_geo x version s placed

  -- From the removal of the version's directory on.
  unfoldable pub replace : Bool → Extracted → String → InstallState → Tree → Tree × Bool
  replace include_geo x version s t =
      let others = without version t.versions in
      if f.fails remove
      then (record t { versions = tear f.torn version t.versions }, false)
      else if f.fails make
      then (record t { versions = others }, false)
      else fill include_geo x version s others t

  -- What the installed version writes to `state.json`.
  unfoldable pub new_state : String → String → String → ℤ → InstallState → InstallState
  new_state version source binary_sha now prev = record prev {
    installed_version = version;
    installed_at = now;
    source = source;
    binary_sha256 = binary_sha;
    previous_version = prev.installed_version;
  }

  -- `commitInstall`: the tree, and whether there is no error.
  unfoldable pub commit_install :
      Bool
      → (detected : String) → Extracted
      → (version source binary_sha : String) → (now : ℤ) → Tree
      → Tree × Bool
  unfolding new_state
  commit_install include_geo detected x version source binary_sha now t =
      let target = if is_empty version then detected else version in
      if f.fails ensure
      then (t, false)
      else if is_empty target || not (validate_version_token target)
      then (t, false)
      else replace include_geo x target (new_state target source binary_sha now (load_state t)) t

unfoldable pub second : List Version → Option Version
second [] = none
second (v ∷ []) = none
second (v ∷ w ∷ vs) = some w

abbrev pub rolled_back : ℤ → Version → Tree → Tree
rolled_back now w t =
    let s = load_state t in
    record t {
      link = some w.name;
      state = some (record s {
        previous_version = s.installed_version;
        installed_version = w.name;
        installed_at = now;
        source = "rollback";
        binary_sha256 = "";
      });
    }

-- `Rollback` up to the restart, where no call of its own fails; none for a single version.
unfoldable pub rollback : ℤ → Tree → Option Tree
rollback now t = elim (second t.versions) [ none ↦ none | some w ↦ some (rolled_back now w t) ]

-- `ResetToImage` up to the restart, where no call fails.
unfoldable pub reset_to_image : Tree → Tree
reset_to_image t = record {
  versions = [];
  link = none;
  geo_ip = none;
  geo_site = none;
  state = none;
}

-- `Resolved`: whether the binary is that of the override tree, and the geo files too.
pub record Resolved : Type 0 where
  pub override : Bool
  pub own_assets : Bool

-- `Resolve`
unfoldable pub resolve : Tree → Resolved
resolve t = elim (linked t) [
  | some binary ↦ record {
    override = true;
    own_assets = elim t.geo_ip [ none ↦ false | some file ↦ true ];
  }
  | none ↦ record { override = false; own_assets = false }
]
