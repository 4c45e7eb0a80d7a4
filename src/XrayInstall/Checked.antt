-- ===== src/XrayInstall/Checked.antt =====
-- What an update from the release server puts into use (internal/xrayinstall/run.go, swap.go).
use zeroone.Prelude.{
  ◌≡◌, refl, ◌⊎◌, inl, inr, String, Bool, true, false, not, ◌&&◌, ◌||◌, Option, none, some,
  is_empty, str_eq, if◌then◌else◌,
}
use zeroone.Prelude.Int.{ℤ}
use zeroone.XrayInstall.Versions.{validate_version_token}
use zeroone.XrayInstall.Digest.{parse_digest}
use zeroone.XrayInstall.Commit.{Tree, Extracted, Faults, linked}
use zeroone.XrayInstall.Kept.{commit_install-Keeps}
use zeroone.XrayInstall.Run.{
  World, Tools, Ended, extract_zip, install, apply_extracted, compare_digests, check_digest,
  check_archive, fetch, wanted, run_online,
}

or_left : (a b : Bool) → (a || b) ≡ false → a ≡ false
or_left true b h = cc
or_left false b h = refl

module _ (P : Ended → Type 0) where
  if-case : (b : Bool) (x y : Ended) → (b ≡ true → P x) → (b ≡ false → P y) → P (if b then x else y)
  if-case true x y h k = h refl
  if-case false x y h k = k refl

  option-case :
      {A : Type 0} (o : Option A) (x : Ended) (f : A → Ended)
      → P x
      → ((a : A) → o ≡ some a → P (f a))
      → P (elim o as (λ p. Ended) [ none ↦ x | some a ↦ f a ])
  option-case none x f h k = h
  option-case (some a) x f h k = k a refl

module _ (tools : Tools) (f : Faults) (include_geo : Bool) (w : World) (now : ℤ) where
  -- The digest of the archive is that of the release.
  pub record IsGenuine : Type 0 where
    pub body : String
    pub got : String
    pub want : String
    pub published : w.digest_file ≡ some body
    pub computed : w.archive_sha ≡ some got
    pub parsed : parse_digest tools.to_upper tools.to_lower body ≡ some want
    pub equal : tools.equal_fold got want ≡ true

  -- The old binary is still in use and the job has failed, or a binary of the archive that starts is in use.
  abbrev Swaps : String → Ended → Type 0
  Swaps old r =
      ((linked r.0 ≡ some old) × (r.1 ≡ false))
      ⊎ ((x : Extracted) × (extract_zip w.archive ≡ some x)
          × (tools.starts x.binary ≡ true)
          × (linked r.0 ≡ some x.binary))

  -- The same, the archive being genuine in the second case.
  abbrev pub Updates : String → Ended → Type 0
  Updates old r =
      ((linked r.0 ≡ some old) × (r.1 ≡ false))
      ⊎ (IsGenuine
          × (x : Extracted) × (extract_zip w.archive ≡ some x)
          × (tools.starts x.binary ≡ true)
          × (linked r.0 ≡ some x.binary))

  module _ (t : Tree) (before old : String) (l : t.link ≡ some before)
      (h : linked t ≡ some old) where
    installed :
        (x : Extracted) (version source sha : String)
        → extract_zip w.archive ≡ some x
        → tools.starts x.binary ≡ true
        → is_empty version ≡ false
        → str_eq version before ≡ false
        → Swaps old (install tools f include_geo w now x version source sha t)
    installed x version source sha e runs named other =
        rw named
          (elim (commit_install-Keeps tools.sha f include_geo (tools.detect x.binary) x version
            source sha now t before old l h (rw named other)) [
              | inl stays ↦ inl stays
              | inr moved ↦ inr (x, e, runs, moved)
            ])

    apply_extracted-Swaps :
        (version source sha : String)
        → is_empty version ≡ false
        → str_eq version before ≡ false
        → Swaps old (apply_extracted tools f include_geo w now version source sha t)
    unfolding apply_extracted
    apply_extracted-Swaps version source sha named other =
        if-case (Swaps old) (not w.stage_ready) _ _ (λ e. inl (h, refl))
          (λ e. option-case (Swaps old) (extract_zip w.archive) _ _ (inl (h, refl)) (λ x unpacked.
            if-case (Swaps old) (tools.starts x.binary) _ _
              (λ runs. installed x version source sha unpacked runs named other)
              (λ e'. inl (h, refl))))

    compare_digests-Updates :
        (version got want body : String)
        → w.digest_file ≡ some body
        → w.archive_sha ≡ some got
        → parse_digest tools.to_upper tools.to_lower body ≡ some want
        → is_empty version ≡ false
        → str_eq version before ≡ false
        → Updates old (compare_digests tools f include_geo w now version got want t)
    unfolding compare_digests
    compare_digests-Updates version got want body published computed parsed named other =
        if-case (Updates old) (tools.equal_fold got want) _ _
          (λ equal. elim (apply_extracted-Swaps version "online" got named other) [
            | inl stays ↦ inl stays
            | inr (x, unpacked, runs, used) ↦ inr (
              record {
                body = body;
                got = got;
                want = want;
                published = published;
                computed = computed;
                parsed = parsed;
                equal = equal;
              },
              x,
              unpacked,
              runs,
              used,
            )
          ])
          (λ e. inl (h, refl))

    fetch-Updates :
        (version : String)
        → is_empty version ≡ false
        → str_eq version before ≡ false
        → Updates old (fetch tools f include_geo w now version t)
    unfolding fetch check_archive check_digest
    fetch-Updates version named other =
        if-case (Updates old) (w.ready && w.downloaded) _ _
          (λ e. option-case (Updates old) w.archive_sha _ _ (inl (h, refl)) (λ got computed.
            option-case (Updates old) w.digest_file _ _ (inl (h, refl)) (λ body published.
              option-case (Updates old) (parse_digest tools.to_upper tools.to_lower body) _ _
                (inl (h, refl))
                (λ want parsed.
                  compare_digests-Updates version got want body published computed parsed named
                    other))))
          (λ e. inl (h, refl))

-- Only what the release server vouches for is put into use, and a failed update stops nothing: where
-- `bin/xray` leads to a binary and names another version than the job is to install, then whatever the job
-- meets and whichever of its system calls fail, it fails and `bin/xray` leads to that binary, or
-- `bin/xray` leads to a binary of the archive that starts, and the digest of the archive is the one that
-- the release publishes.
pub run_online-Updates :
    (tools : Tools) (f : Faults) (include_geo : Bool) (w : World) (now : ℤ) (requested : String)
    (t : Tree) (before old : String)
    → t.link ≡ some before
    → linked t ≡ some old
    → ((version : String)
        → wanted tools f include_geo w now requested ≡ some version
        → str_eq version before ≡ false)
    → Updates tools f include_geo w now old (run_online tools f include_geo w now requested t)
unfolding run_online
run_online-Updates tools f include_geo w now requested t before old l h other =
    let U = Updates tools f include_geo w now old in
    option-case U (wanted tools f include_geo w now requested) _ _ (inl (h, refl)) (λ version e.
      if-case U (is_empty version || not (validate_version_token version)) _ _
        (λ bad. inl (h, refl))
        (λ sound.
          fetch-Updates tools f include_geo w now t before old l h version
            (or_left (is_empty version) _ sound) (other version e)))
