-- ===== src/Dashboard/Tests.antt =====
-- Urls of subscriptions.
use sbm.Base.{ℕ, ◌≡◌, ◌≢◌, refl, ap, [], ◌∷◌, arith}
use sbm.Base.Text.{codes}
use sbm.Base.Decimal.{decimal}
use sbm.Message.{tr}
use sbm.Dashboard.{SubFormat, auto, clash, format_sub_url, has_query, uptime, panel_version}
use sbm.Dashboard.Laws.{format_sub_url-append}

two_days : uptime 180000 ≡ tr "server.days" (("days", codes "2") ∷ ("hours", codes "2") ∷ [])
unfolding uptime decimal
two_days = refl

release : panel_version (codes "2.1.7") ≡ codes "v2.1.7"
unfolding panel_version
release = refl

-- The number of a format tells it from the automatic one.
abbrev rank : SubFormat → ℕ
rank auto = 0
rank _ = 1

not_auto : clash ≢ auto
not_auto e = let p : 1 ≡ 0 = ap rank e in omega (arith, p)

format_sub_url-clash :
    (format_sub_url (codes "https://a/s?t=1#SBM") clash ≡ codes "https://a/s?t=1&target=clash#SBM")
    × (format_sub_url (codes "https://a/s?t=1#SBM") auto ≡ codes "https://a/s?t=1#SBM")
unfolding has_query
format_sub_url-clash =
    format_sub_url-append (codes "https://a/s?t=1") (codes "#SBM") clash
      (
        refl,
        (
          refl,
          (
            refl,
            (
              refl,
              (
                refl,
                (refl, (refl, (refl, (refl, (refl, (refl, (refl, (refl, (refl, (refl, tt)))))))))),
              ),
            ),
          ),
        ),
      )
      refl (omega arith) not_auto
