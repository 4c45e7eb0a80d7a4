-- ===== src/XrayInstall/Order.antt =====
-- The order of the versions (internal/xrayinstall/versions.go).
use zeroone.Prelude.{String, ◌≡◌, ◌≢◌, arith, refl, suc, zero, Option, none, some}
use zeroone.Prelude.Int.{ℤ, pos, negsuc}
use zeroone.XrayInstall.Versions.{
  Semver, compare_part, compare_parts, compare_parsed, compare_versions, parse_semver,
}

-- The other way round.
abbrev pub flip : ℤ → ℤ
flip (pos zero) = pos 0
flip (pos (suc n)) = negsuc n
flip (negsuc n) = pos (suc n)

compare_part-flip : (a b r s : ℤ) → s ≡ flip r → compare_part b a s ≡ flip (compare_part a b r)
unfolding compare_part
compare_part-flip a b r s h = ground (arith, h)

compare_parts-flip : (v w : Semver) → compare_parts w v ≡ flip (compare_parts v w)
unfolding compare_parts
compare_parts-flip (a, b, c) (d, e, f) =
    compare_part-flip a d _ _
      (compare_part-flip b e _ _ (compare_part-flip c f (pos 0) (pos 0) refl))

compare_parsed-flip : (v w : Option Semver) → compare_parsed w v ≡ flip (compare_parsed v w)
unfolding compare_parsed
compare_parsed-flip none none = refl
compare_parsed-flip none (some w) = refl
compare_parsed-flip (some v) none = refl
compare_parsed-flip (some v) (some w) = compare_parts-flip v w

-- Not later.
abbrev pub AtMost : ℤ → Type 0
AtMost r = r ≢ pos 1

compare_part_trans :
    (a b c r s t : ℤ)
    → (AtMost r → AtMost s → AtMost t)
    → AtMost (compare_part a b r)
    → AtMost (compare_part b c s)
    → AtMost (compare_part a c t)
unfolding compare_part
compare_part_trans a b c r s t rest p q = ground (arith, rest)

compare_parts_trans :
    (u v w : Semver)
    → AtMost (compare_parts u v)
    → AtMost (compare_parts v w)
    → AtMost (compare_parts u w)
unfolding compare_parts
compare_parts_trans (a, b, c) (d, e, f) (g, h, i) =
    compare_part_trans a d g _ _ _
      (compare_part_trans b e h _ _ _ (compare_part_trans c f i (pos 0) (pos 0) (pos 0) (λ p q. p)))

compare_parsed_trans :
    (u v w : Option Semver)
    → AtMost (compare_parsed u v)
    → AtMost (compare_parsed v w)
    → AtMost (compare_parsed u w)
unfolding compare_parsed
compare_parsed_trans none none w p q = q
compare_parsed_trans none (some v) none p q = λ e. cc
compare_parsed_trans none (some v) (some w) p q = λ e. cc
compare_parsed_trans (some u) none w p q = absurd (p refl)
compare_parsed_trans (some u) (some v) none p q = absurd (q refl)
compare_parsed_trans (some u) (some v) (some w) p q = compare_parts_trans u v w p q

-- `CompareVersions` is an order of all texts: where it puts the first text not after the second one and
-- the second one not after the third one, it puts the first one not after the third one; and with
-- its arguments exchanged its answer has the other sign.
pub compare_versions_trans :
    (a b c : String)
    → AtMost (compare_versions a b)
    → AtMost (compare_versions b c)
    → AtMost (compare_versions a c) × (compare_versions c a ≡ flip (compare_versions a c))
unfolding compare_versions
compare_versions_trans a b c p q = (
  compare_parsed_trans (parse_semver a) (parse_semver b) (parse_semver c) p q,
  compare_parsed-flip (parse_semver a) (parse_semver c),
)
