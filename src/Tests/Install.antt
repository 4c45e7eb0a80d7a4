-- ===== src/Tests/Install.antt =====
-- Examples of the theorems on the updates of Xray and on its process.
use zeroone.Prelude.{
  ◌≡◌, List, refl, String, Bool, true, false, Option, none, some, [], ◌∷◌, str_eq, append_text,
}
use zeroone.Prelude.Int.{pos}
use zeroone.Stack.Text.{trim_space, is_space, split_at, cut, strip_prefix}
use zeroone.Stack.Text.Search.{has_text, words}
use zeroone.XrayInstall.Versions.{validate_version_token, is_token_char}
use zeroone.XrayInstall.Jobs.{Installer, Reach, running, idle}
use zeroone.XrayInstall.Overlap.{jobs-overlap}
use zeroone.XrayInstall.Commit.{
  swap, Stage, Version, Tree, Extracted, Faults, xray_in, linked, commit_install, rollback, replace,
  fill, relink, place_geo, place_geo_ip, place_geo_site, save_install, rotate_old_versions, without,
  new_state,
}
use zeroone.XrayInstall.Run.{
  Tools, World, run_online, fetch, check_archive, check_digest, compare_digests, apply_extracted,
  extract_zip, extract_from, is_asset,
}
use zeroone.XrayInstall.Digest.{parse_digest, first_digest, digest_of_line, is_hex64}
use zeroone.XrayInstall.Checked.{Updates, run_online-Updates}
use zeroone.XrayInstall.Back.{no_faults, rollback-commit_install}
use zeroone.XrayProcess.{starting, sleeping, starts, exits, wakes, fresh, on_events}
use zeroone.XrayProcess.Waits.{
  Setback, crash, failed_start, setbacks, wait_after, setbacks-wait_after,
}

-- The release in use and an older one.
abbrev newest : Version
newest = record { name = "v25.1.30"; xray = some "xray 25" }

abbrev oldest : Version
oldest = record { name = "v24.9.7"; xray = some "xray 24" }

abbrev tree : Tree
tree = record {
  versions = newest ∷ oldest ∷ [];
  link = some "v25.1.30";
  geo_ip = none;
  geo_site = none;
  state = none;
}

abbrev extracted : Extracted
extracted = record { binary = "xray 26"; geo_ip_file = some "geo"; geo_site_file = none }

abbrev is_swap : Stage → Bool
is_swap swap = true
is_swap _ = false

abbrev no_swap : Faults
no_swap = record { fails = is_swap; torn = false }

abbrev digest : String → Option String
digest s = some s

runs : linked tree ≡ some "xray 25"
unfolding linked xray_in
runs = refl

is_sound : validate_version_token "v26.0.1" ≡ true
unfolding validate_version_token is_token_char has_text strip_prefix
is_sound = refl

rollback-commit_install_example :
    (u : Tree) × (rollback
        (pos 11)
        (commit_install digest no_faults true "v26.0.1" extracted "v26.0.1" "online" "sum"
          (pos 9)
          tree).0
      ≡ some u)
    × (u.link ≡ some "v25.1.30")
    × (linked u ≡ some "xray 25")
rollback-commit_install_example =
    rollback-commit_install digest true "v26.0.1" extracted "v26.0.1" "online" "sum" (pos 9)
      (pos 11) tree newest (oldest ∷ []) "xray 25" refl refl refl is_sound (λ e. cc)

jobs-overlap_example : (i : Installer) × Reach idle i × (running i.jobs ≡ 2)
jobs-overlap_example = jobs-overlap 2

abbrev keep : String → String
keep s = s

-- A digest that is published, and files that all have it.
abbrev a_digest : String
a_digest = "0123456789abcdef0123456789abcdef0123456789abcdef0123456789abcdef"

abbrev tools : Tools
tools = record {
  to_upper = keep;
  to_lower = keep;
  equal_fold = str_eq;
  sha = digest;
  detect = λ s. "";
  starts = λ s. true;
}

-- The release v26.0.1, with its archive.
abbrev world : World
world = record {
  latest = some "v26.0.1";
  ready = true;
  stage_ready = true;
  downloaded = true;
  archive = some (record { name = "xray"; content = some "xray 26" } ∷ []);
  archive_sha = some a_digest;
  digest_file = some (append_text "SHA2-256= " a_digest);
}

newer :
    (version : String)
    → ◌≡◌ {A = Option String} (some "v26.0.1") (some version)
    → str_eq version "v25.1.30" ≡ false
newer version e = let same : version ≡ "v26.0.1" = cc in rw same refl

run_online-Updates_example :
    Updates tools no_swap true world
      (pos 9)
      "xray 25"
      (run_online tools no_swap true world (pos 9) "" tree)
run_online-Updates_example =
    run_online-Updates tools no_swap true world (pos 9) "" tree "v25.1.30" "xray 25" refl runs newer

-- Without a failing call the new binary is in use.
run_done : linked (run_online tools no_faults true world (pos 9) "" tree).0 ≡ some "xray 26"
unfolding run_online fetch check_archive check_digest compare_digests apply_extracted extract_zip
    extract_from is_asset parse_digest first_digest digest_of_line is_hex64 commit_install replace
    fill relink place_geo place_geo_ip place_geo_site save_install rotate_old_versions without
    linked xray_in validate_version_token is_token_char has_text strip_prefix split_at cut
    trim_space is_space words new_state
run_done = refl

-- A crash and a start that fails.
abbrev twice : List Setback
twice = crash ∷ failed_start ∷ []

setbacks-wait_after_example :
    ((on_events (setbacks twice (starts ∷ exits ∷ [])) fresh).place ≡ sleeping (wait_after 2))
    × ((on_events (setbacks twice (starts ∷ exits ∷ wakes ∷ [])) fresh).place ≡ starting)
setbacks-wait_after_example = setbacks-wait_after twice
