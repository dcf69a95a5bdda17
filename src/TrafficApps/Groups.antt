-- ===== src/TrafficApps/Groups.antt =====
-- The groups of an exported report.
use sbm.Base.{
  num, ℕ, ◌+◌, ◌*◌, ◌≡◌, ◌⊎◌, refl, Bool, true, false, ◌||◌, not, List, [], ◌∷◌, map, sum_by, arith,
  Bool-cases, inl, inr,
}
use sbm.Base.Text.{Text, codes, text_eq_sound}
use sbm.TrafficApps.{AppUsage, AppTrafficResponse}
use sbm.TrafficApps.Export.{
  in_category, is_site, is_service, is_matched, filter_by, site_row, app_row, report_of,
}

-- An app is in exactly one group.
is_site-exclusive : (a : AppUsage) → is_site a ≡ true → is_service a ≡ false
unfolding is_site is_service in_category
is_site-exclusive a h =
    let e : a.category ≡ codes "site" = text_eq_sound a.category (codes "site") h in rw e refl

bit_sum :
    (s e c : Bool)
    → (s ≡ true → (e || c) ≡ false)
    → num s + num (e || c) + num (not (s || e || c)) ≡ 1
bit_sum true true c h = absurd (cc (h refl))
bit_sum true false true h = absurd (cc (h refl))
bit_sum true false false h = refl
bit_sum false true c h = refl
bit_sum false false true h = refl
bit_sum false false false h = refl

one_group : (a : AppUsage) → num (is_site a) + num (is_service a) + num (is_matched a) ≡ 1
unfolding is_site is_service is_matched
one_group a =
    bit_sum (in_category (codes "site") a) (in_category (codes "ecosystem") a)
      (in_category (codes "cdn") a) (is_site-exclusive a)

sum-filter_by-cons :
    (f : AppUsage → ℕ) (p : AppUsage → Bool) (a : AppUsage) (xs : List AppUsage)
    → sum_by f (filter_by p (a ∷ xs)) ≡ num (p a) * f a + sum_by f (filter_by p xs)
sum-filter_by-cons f p a xs = elim (Bool-cases (p a)) [
  | inl kept ↦ rw kept (omega arith)
  | inr dropped ↦ rw dropped (omega arith)
]

total_weight : (x y z n : ℕ) → x + y + z ≡ 1 → x * n + y * n + z * n ≡ n
total_weight x y z n e = elim (one_of x y z e) [
  | inl (a, b, c) ↦ rw (a, b, c) (omega arith)
  | inr (inl (a, b, c)) ↦ rw (a, b, c) (omega arith)
  | inr (inr (a, b, c)) ↦ rw (a, b, c) (omega arith)
]
  where
    one_of :
        (x y z : ℕ)
        → x + y + z ≡ 1
        → ((x ≡ 1) × (y ≡ 0) × (z ≡ 0))
          ⊎ (((x ≡ 0) × (y ≡ 1) × (z ≡ 0)) ⊎ ((x ≡ 0) × (y ≡ 0) × (z ≡ 1)))
    one_of x y z e = omega arith

sum-groups :
    (f : AppUsage → ℕ) (xs : List AppUsage)
    → sum_by f (filter_by is_site xs)
        + sum_by f (filter_by is_service xs)
        + sum_by f (filter_by is_matched xs)
      ≡ sum_by f xs
sum-groups f [] = refl
sum-groups f (a ∷ xs) =
    let one =
      total_weight (num (is_site a)) (num (is_service a)) (num (is_matched a)) (f a)
        (one_group a) in
    rw
      (
        sum-filter_by-cons f is_site a xs,
        sum-filter_by-cons f is_service a xs,
        sum-filter_by-cons f is_matched a xs,
      )
      (omega (arith, one, sum-groups f xs))

sum_by-map :
    {A B : Type 0} (g : A → B) (f : B → ℕ) (xs : List A)
    → sum_by f (map g xs) ≡ sum_by (λ x. f (g x)) xs
sum_by-map g f [] = refl
sum_by-map g f (x ∷ xs) = omega (arith, sum_by-map g f xs)

-- Every app stands in the report exactly once, with its own name and its own counts: whatever is
-- counted or added up over the rows of the three groups is what it is over the apps.
pub sum-report_of :
    (percent : ℕ → ℕ → Text) (now : Text) (current : AppTrafficResponse) (f : Text → ℕ → ℕ → ℕ → ℕ)
    → sum_by
          (λ r. f r.domain r.upload r.download r.total)
          (report_of percent now current).unmatched_sites
        + sum_by
            (λ r. f r.name r.upload r.download r.total)
            (report_of percent now current).ecosystem_services
        + sum_by
            (λ r. f r.name r.upload r.download r.total)
            (report_of percent now current).matched_apps
      ≡ sum_by (λ a. f a.name a.upload a.download a.total) current.apps
unfolding report_of site_row app_row
sum-report_of percent now current f =
    let total = current.total_bytes in
    let weight : AppUsage → ℕ = λ a. f a.name a.upload a.download a.total in
    rw
      (
        sum_by-map (site_row percent total) (λ r. f r.domain r.upload r.download r.total)
            (filter_by is_site current.apps),
        sum_by-map (app_row percent total) (λ r. f r.name r.upload r.download r.total)
            (filter_by is_service current.apps),
        sum_by-map (app_row percent total) (λ r. f r.name r.upload r.download r.total)
            (filter_by is_matched current.apps),
      )
      (sum-groups weight current.apps)
