-- ===== src/TrafficApps/Export.antt =====
-- `share` and `exportJSON` of web/src/components/TrafficApps.vue. How JavaScript divides and writes a
-- number with one digit behind the point is a parameter.
use sbm.Base.{
  ℕ, ◌*◌, Bool, ◌||◌, not, Option, none, some, List, [], ◌∷◌, ◌++◌, ◌==◌, ltb, if◌then◌else◌, map,
}
use sbm.Base.Text.{Text, codes, text_eq}
use sbm.Message.{t}
use sbm.TrafficHistory.{Mode}
use sbm.TrafficApps.{AppDomainUsage, AppUsage, AppTrafficResponse, View, emit}

-- `category === name`
unfoldable pub in_category : Text → AppUsage → Bool
in_category name a = text_eq a.category name

unfoldable pub is_site : AppUsage → Bool
unfolding in_category
is_site a = in_category (codes "site") a

unfoldable pub is_service : AppUsage → Bool
unfolding in_category
is_service a = in_category (codes "ecosystem") a || in_category (codes "cdn") a

-- The three tests of the last group, negated one by one.
unfoldable pub is_matched : AppUsage → Bool
unfolding in_category
is_matched a = not (
    in_category (codes "site") a
    || in_category (codes "ecosystem") a
    || in_category (codes "cdn") a)

abbrev pub filter_by : (AppUsage → Bool) → List AppUsage → List AppUsage
filter_by p [] = []
filter_by p (a ∷ more) = let rest = filter_by p more in if p a then a ∷ rest else rest

pub record SiteRow : Type 0 where
  pub domain : Text
  pub upload : ℕ
  pub download : ℕ
  pub total : ℕ
  pub share : Text

pub record AppRow : Type 0 where
  pub id : Text
  pub name : Text
  pub category : Text
  pub upload : ℕ
  pub download : ℕ
  pub total : ℕ
  pub share : Text
  pub domains : List AppDomainUsage

pub record Report : Type 0 where
  pub exported_at : Text
  pub period : Mode
  pub date : Text
  pub timezone : Text
  pub total_upload : ℕ
  pub total_download : ℕ
  pub total_bytes : ℕ
  pub unmatched_sites : List SiteRow
  pub ecosystem_services : List AppRow
  pub matched_apps : List AppRow

-- The file that is saved: its name and what it holds.
pub record Saved : Type 0 where
  pub download : Text
  pub report : Report

-- `share` compares exactly. `percent value total` is `(value / total * 100).toFixed(1)`.
module _ (percent : ℕ → ℕ → Text) where
  unfoldable pub share : ℕ → ℕ → Text
  share value total =
      if total == 0 || value == 0
      then codes "0%"
      else if ltb (1000 * value) total
      then codes "<0.1%"
      else percent value total ++ codes "%"

  unfoldable pub site_row : ℕ → AppUsage → SiteRow
  site_row total a = record {
    domain = a.name;
    upload = a.upload;
    download = a.download;
    total = a.total;
    share = share a.total total;
  }

  unfoldable pub app_row : ℕ → AppUsage → AppRow
  app_row total a = record {
    id = a.id;
    name = a.name;
    category = a.category;
    upload = a.upload;
    download = a.download;
    total = a.total;
    share = share a.total total;
    domains = a.domains;
  }

  unfoldable pub report_of : Text → AppTrafficResponse → Report
  report_of now current = record {
    exported_at = now;
    period = current.period;
    date = current.date;
    timezone = current.timezone;
    total_upload = current.total_upload;
    total_download = current.total_download;
    total_bytes = current.total_bytes;
    unmatched_sites = map (site_row current.total_bytes) (filter_by is_site current.apps);
    ecosystem_services = map (app_row current.total_bytes) (filter_by is_service current.apps);
    matched_apps = map (app_row current.total_bytes) (filter_by is_matched current.apps);
  }

  -- `exportJSON`: nothing is saved without an app.
  unfoldable pub export_json : Text → View → View × Option Saved
  export_json now v = elim v.data_shown [
    | none ↦ (v, none)
    | some current ↦ elim current.apps [
      | [] ↦ (v, none)
      | a ∷ more ↦ (
        emit (t "apps.exportDone") v,
        some (record {
          download = codes "sbm-traffic-apps-" ++ current.date ++ codes ".json";
          report = report_of now current;
        }),
      )
    ]
  ]
