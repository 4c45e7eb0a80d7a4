-- ===== src/XrayInstall/Run.antt =====
-- The update jobs (internal/xrayinstall/run.go, swap.go). What a job meets outside comes as values: the
-- answers of the release server, the archive and the digests of files. The binary is started for its
-- version (`detect`) and as a test (`starts`); the restart of Xray, which does not decide how a job ends, is
-- left out.
use zeroone.Prelude.{
  String, Bool, true, false, not, ◌&&◌, ◌||◌, Option, none, some, List, [], ◌∷◌, str_eq, is_empty,
  if◌then◌else◌,
}
use zeroone.Prelude.Int.{ℤ}
use zeroone.XrayInstall.Versions.{validate_version_token}
use zeroone.XrayInstall.Digest.{parse_digest}
use zeroone.XrayInstall.Jobs.{Installer, begin_job}
use zeroone.XrayInstall.Commit.{Tree, Extracted, Faults, commit_install}

-- A file in an archive, by the last part of its name; none where it cannot be copied.
pub record ZipEntry : Type 0 where
  pub name : String
  pub content : Option String

-- The files of an archive; none where it cannot be opened.
abbrev pub Archive : Type 0
Archive = Option (List ZipEntry)

-- `extractedAssets` during the loop.
pub record Found : Type 0 where
  pub binary : Option String
  pub geo_ip_file : Option String
  pub geo_site_file : Option String

abbrev place : ZipEntry → String → Found → Found
place e content x =
    if str_eq e.name "xray" || str_eq e.name "xray.exe"
    then record x { binary = some content }
    else if str_eq e.name "geoip.dat"
    then record x { geo_ip_file = some content }
    else record x { geo_site_file = some content }

unfoldable pub is_asset : String → Bool
is_asset name =
    str_eq name "xray"
    || str_eq name "xray.exe"
    || str_eq name "geoip.dat"
    || str_eq name "geosite.dat"

-- The loop of `extractZip`.
unfoldable pub extract_from : List ZipEntry → Found → Option Found
unfolding is_asset
extract_from [] x = some x
extract_from (e ∷ es) x = elim (is_asset e.name) [
  | false ↦ extract_from es x
  | true ↦ elim e.content [ none ↦ none | some content ↦ extract_from es (place e content x) ]
]

abbrev with_binary : Found → Option Extracted
with_binary x = elim x.binary [
  | none ↦ none
  | some binary ↦
      some
        (record { binary = binary; geo_ip_file = x.geo_ip_file; geo_site_file = x.geo_site_file })
]

abbrev found_nothing : Found
found_nothing = record { binary = none; geo_ip_file = none; geo_site_file = none }

-- `extractZip`, into a directory that is there; `none` stands for its errors.
unfoldable pub extract_zip : Archive → Option Extracted
extract_zip none = none
extract_zip (some es) = elim (extract_from es found_nothing) [
  | none ↦ none
  | some x ↦ with_binary x
]

-- What a job meets.
pub record World : Type 0 where
  -- The tag of the latest release; none where it cannot be asked for.
  pub latest : Option String
  -- The directories of the job can be made; and that for the archive's files.
  pub ready : Bool
  pub stage_ready : Bool
  -- The archive is downloaded, and what is in it.
  pub downloaded : Bool
  pub archive : Archive
  -- The digest of the archive, and the file with the digests of the release.
  pub archive_sha : Option String
  pub digest_file : Option String

-- What is asked of Go's libraries and of the machine.
pub record Tools : Type 0 where
  pub to_upper : String → String
  pub to_lower : String → String
  pub equal_fold : String → String → Bool
  pub sha : String → Option String
  pub detect : String → String
  pub starts : String → Bool

-- The tree after a job, and whether its phase is `PhaseDone`; `PhaseFailed` otherwise.
abbrev pub Ended : Type 0
Ended = Tree × Bool

module _ (tools : Tools) (f : Faults) (include_geo : Bool) (w : World) (now : ℤ) where
  -- From `commitInstall` on.
  abbrev pub install : Extracted → (version source sha : String) → Tree → Ended
  install x version source sha t =
      commit_install tools.sha f include_geo (tools.detect x.binary) x
        (if is_empty version then tools.detect x.binary else version) source sha now t

  -- `applyExtracted`
  unfoldable pub apply_extracted : (version source sha : String) → Tree → Ended
  apply_extracted version source sha t =
      if not w.stage_ready then (t, false) else elim (extract_zip w.archive) [
        | none ↦ (t, false)
        | some x ↦ if tools.starts x.binary then install x version source sha t else (t, false)
      ]

  -- The digest that is wanted, and on.
  unfoldable pub compare_digests : (version got want : String) → Tree → Ended
  compare_digests version got want t =
      if tools.equal_fold got want then apply_extracted version "online" got t else (t, false)

  unfoldable pub check_digest : (version got : String) → Tree → Ended
  check_digest version got t = elim w.digest_file [
    | none ↦ (t, false)
    | some body ↦ elim (parse_digest tools.to_upper tools.to_lower body) [
      | none ↦ (t, false)
      | some want ↦ compare_digests version got want t
    ]
  ]

  unfoldable pub check_archive : (version : String) → Tree → Ended
  check_archive version t = elim w.archive_sha [
    | none ↦ (t, false)
    | some got ↦ check_digest version got t
  ]

  -- From the directories of the job on.
  unfoldable pub fetch : (version : String) → Tree → Ended
  fetch version t = if w.ready && w.downloaded then check_archive version t else (t, false)

  abbrev pub wanted : (requested : String) → Option String
  wanted requested = if is_empty requested then w.latest else some requested

  -- `runOnline`, up to `endJob`.
  unfoldable pub run_online : (requested : String) → Tree → Ended
  run_online requested t = elim (wanted requested) [
    | none ↦ (t, false)
    | some version ↦
        if is_empty version || not (validate_version_token version)
        then (t, false)
        else fetch version t
  ]

  -- `runUpload`, up to `endJob`.
  unfoldable pub run_upload : (expected version : String) → Tree → Ended
  run_upload expected version t = elim w.archive_sha [
    | none ↦ (t, false)
    | some got ↦
        if not (is_empty expected) && not (tools.equal_fold got expected)
        then (t, false)
        else apply_extracted version "upload" got t
  ]

-- The answer to a request for an update.
pub data Begun : Type 0 where
  bad_version busy : Begun
  started : Installer → Begun

abbrev begun : Option Installer → Begun
begun none = busy
begun (some i) = started i

-- `UpdateOnline` and `UpdateFromUpload`, with the source "online" or "upload", up to the start of the job.
unfoldable pub request_update : (version id source : String) → ℤ → Installer → Begun
request_update version id source now i =
    if not (is_empty version) && not (validate_version_token version)
    then bad_version
    else begun (begin_job id source now i)
