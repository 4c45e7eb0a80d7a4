-- ===== src/Api/SiteNames.antt =====
-- The domains of a plugin's sites (internal/api/relay.go, snispoof.go).
use zeroone.Prelude.{
  ◌≡◌, refl, sym, ap₂, ◌∙◌, inl, inr, arith, String, Bool, true, false, ◌||◌, ◌++◌, Option, none,
  some, List, [], ◌∷◌, Bool-cases, Option-cases, is_empty, if◌then◌else◌,
}
use zeroone.Stack.{RelaySite}
use zeroone.Stack.Text.{trim_space}
use zeroone.Stack.Mutate.Outcome.{any_of, update_first, delete_where}
use zeroone.Api.Plugins.{
  Sites, refused, changed, SiteChange, malformed, add_site, replace_site, delete_site, has_domain,
  trimmed_site, found_site, post_site, put_site, remove_site, change_sites,
}

-- What the handlers leave of the sites `xs`.
unfoldable pub sites_after : List RelaySite → Sites → List RelaySite
sites_after xs (refused code) = xs
sites_after xs (changed ys) = ys

or_left : (a b : Bool) → (a || b) ≡ false → a ≡ false
or_left true b h = cc
or_left false b h = refl

or_right : (a b : Bool) → (a || b) ≡ false → b ≡ false
or_right true b h = cc
or_right false b h = h

module _ (equal_fold : String → String → Bool) where
  -- No two sites have domains that differ in case only.
  unfoldable pub IsDistinct : List RelaySite → Type 0
  IsDistinct [] = Unit
  IsDistinct (x ∷ xs) = (any_of (has_domain equal_fold x.domain) xs ≡ false) × IsDistinct xs

  Distinct-if :
      (b : Bool) (x : RelaySite) (xs : List RelaySite)
      → any_of (has_domain equal_fold x.domain) xs ≡ false
      → IsDistinct xs
      → IsDistinct (if b then xs else x ∷ xs)
  unfolding IsDistinct
  Distinct-if true x xs h d = d
  Distinct-if false x xs h d = (h, d)

  if-none :
      (b : Bool) (q : RelaySite → Bool) (x : RelaySite) (xs : List RelaySite)
      → q x ≡ false
      → any_of q xs ≡ false
      → any_of q (if b then xs else x ∷ xs) ≡ false
  unfolding any_of
  if-none true q x xs e h = h
  if-none false q x xs e h = ap₂ ◌||◌ e h

  delete_where-none :
      (p q : RelaySite → Bool) (xs : List RelaySite)
      → any_of q xs ≡ false
      → any_of q (delete_where p xs) ≡ false
  unfolding any_of delete_where
  delete_where-none p q [] h = refl
  delete_where-none p q (x ∷ xs) h =
      if-none (p x) q x (delete_where p xs) (or_left (q x) _ h)
        (delete_where-none p q xs (or_right (q x) _ h))

  delete_where-Distinct :
      (p : RelaySite → Bool) (xs : List RelaySite) → IsDistinct xs → IsDistinct (delete_where p xs)
  unfolding IsDistinct delete_where
  delete_where-Distinct p [] h = h
  delete_where-Distinct p (x ∷ xs) h =
      Distinct-if (p x) x (delete_where p xs)
        (delete_where-none p (has_domain equal_fold x.domain) xs h.0)
        (delete_where-Distinct p xs h.1)

  module _ (fold_sym : (a b : String) → equal_fold a b ≡ equal_fold b a)
      (fold_trans : (a b c : String)
        → equal_fold a b ≡ true
        → equal_fold a c ≡ equal_fold b c) where
    append-none :
        (x req : RelaySite) (xs : List RelaySite)
        → any_of (has_domain equal_fold x.domain) xs ≡ false
        → equal_fold x.domain req.domain ≡ false
        → any_of (has_domain equal_fold x.domain) (xs ++ (req ∷ [])) ≡ false
    unfolding any_of
    append-none x req [] h e = rw (fold_sym req.domain x.domain, e) refl
    append-none x req (y ∷ ys) h e =
        ap₂ ◌||◌ (or_left _ _ h) (append-none x req ys (or_right _ _ h) e)

    append-Distinct :
        (req : RelaySite) (xs : List RelaySite)
        → any_of (has_domain equal_fold req.domain) xs ≡ false
        → IsDistinct xs
        → IsDistinct (xs ++ (req ∷ []))
    unfolding IsDistinct any_of
    append-Distinct req [] h d = (refl, tt)
    append-Distinct req (x ∷ xs) h d =
        (append-none x req xs d.0 (or_left _ _ h), append-Distinct req xs (or_right _ _ h) d.1)

    -- Replacing a site by one of the same domain, up to case, changes no test by domain.
    same_test :
        (req : RelaySite) (xs ys : List RelaySite) (domain : String)
        → update_first (has_domain equal_fold req.domain) (λ x. req) xs ≡ some ys
        → any_of (has_domain equal_fold domain) ys ≡ any_of (has_domain equal_fold domain) xs
    unfolding any_of update_first
    same_test req [] ys domain e = cc
    same_test req (x ∷ xs) ys domain e = elim (Bool-cases (equal_fold x.domain req.domain)) [
      | inl same ↦ let tests = fold_trans x.domain req.domain domain same in ground (arith, tests)
      | inr other ↦
          elim (Option-cases (update_first (has_domain equal_fold req.domain) (λ z. req) xs)) [
            | inl absent ↦ ground arith
            | inr (zs, found) ↦
                let tests = same_test req xs zs domain found in ground (arith, tests)
          ]
    ]

    -- A test of the domain that comes first.
    has_domain_iff :
        (x req : RelaySite)
        → equal_fold x.domain req.domain ≡ true
        → (xs : List RelaySite)
        → any_of (has_domain equal_fold req.domain) xs ≡ any_of (has_domain equal_fold x.domain) xs
    unfolding any_of
    has_domain_iff x req same [] = refl
    has_domain_iff x req same (y ∷ ys) =
        ap₂ ◌||◌
          (fold_sym y.domain req.domain
            ∙ sym (fold_trans x.domain req.domain y.domain same)
            ∙ fold_sym x.domain y.domain)
          (has_domain_iff x req same ys)

    update_first-Distinct :
        (req : RelaySite) (xs ys : List RelaySite)
        → update_first (has_domain equal_fold req.domain) (λ x. req) xs ≡ some ys
        → IsDistinct xs
        → IsDistinct ys
    unfolding update_first IsDistinct
    update_first-Distinct req [] ys e d = cc
    update_first-Distinct req (x ∷ xs) ys e d = elim (Bool-cases (equal_fold x.domain req.domain)) [
      | inl same ↦
          let e' : ys ≡ req ∷ xs = ground arith in rw e' (has_domain_iff x req same xs ∙ d.0, d.1)
      | inr other ↦
          elim (Option-cases (update_first (has_domain equal_fold req.domain) (λ z. req) xs)) [
            | inl absent ↦ ground arith
            | inr (zs, found) ↦
                let e' : ys ≡ x ∷ zs = ground arith in
                rw e' (
                  same_test req xs zs x.domain found ∙ d.0,
                  update_first-Distinct req xs zs found d.1,
                )
          ]
    ]

    Keeps-if :
        (b : Bool) (x y : Sites) (xs : List RelaySite)
        → (b ≡ true → IsDistinct (sites_after xs x))
        → (b ≡ false → IsDistinct (sites_after xs y))
        → IsDistinct (sites_after xs (if b then x else y))
    Keeps-if true x y xs h k = h refl
    Keeps-if false x y xs h k = k refl

    found_site-Distinct :
        (o : Option (List RelaySite)) (xs : List RelaySite)
        → IsDistinct xs
        → ((ys : List RelaySite) → o ≡ some ys → IsDistinct ys)
        → IsDistinct (sites_after xs (found_site o))
    unfolding sites_after
    found_site-Distinct none xs d k = d
    found_site-Distinct (some ys) xs d k = k ys refl

    pub change_sites-Distinct :
        (q : SiteChange) (xs : List RelaySite)
        → IsDistinct xs
        → IsDistinct (sites_after xs (change_sites equal_fold q xs))
    unfolding change_sites post_site put_site remove_site sites_after
    change_sites-Distinct malformed xs d = d
    change_sites-Distinct (add_site req) xs d =
        Keeps-if (is_empty (trim_space req.domain)) _ _ xs (λ h. d)
          (λ h.
            Keeps-if (any_of (has_domain equal_fold (trim_space req.domain)) xs) _ _ xs (λ k. d)
              (λ k. append-Distinct (trimmed_site req) xs k d))
    change_sites-Distinct (replace_site req) xs d =
        Keeps-if (is_empty (trim_space req.domain)) _ _ xs (λ h. d)
          (λ h.
            found_site-Distinct _ xs d (λ ys e. update_first-Distinct (trimmed_site req) xs ys e d))
    change_sites-Distinct (delete_site domain) xs d =
        Keeps-if (is_empty (trim_space domain)) _ _ xs (λ h. d)
          (λ h.
            Keeps-if (any_of (has_domain equal_fold (trim_space domain)) xs) _ _ xs
              (λ k. delete_where-Distinct (has_domain equal_fold (trim_space domain)) xs d)
              (λ k. d))
