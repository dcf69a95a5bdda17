-- ===== src/Page/FormsCover.antt =====
-- The texts of the inbounds' page and of the settings.
use sbm.Base.{true, ◌≡◌, refl, Option, none, some, List, [], ◌∷◌, ◌++◌}
use sbm.Base.Text.{Text}
use sbm.Message.{Message, tr}
use sbm.Catalog.Covered.{covered, all_covered}
use sbm.Page.{covered_blocks, covered_blocks-append, covered_blocks-each, each}
use sbm.Types.{HealthStatus, HealthCheck, ServerStatus, Settings, EgressNode, Inbound}
use sbm.Protocols as Inbounds
use sbm.Protocols.Page as InboundsPage
use sbm.Settings as Options
use sbm.Settings.{non_empty, or_local, when_given, check_detail}
use sbm.Settings.Page as OptionsPage

card-covered : (i : Inbound) → covered_blocks (InboundsPage.card i) ≡ true
unfolding InboundsPage.card all_covered
card-covered i = refl

node-covered : (n : EgressNode) → covered_blocks (InboundsPage.node n) ≡ true
unfolding InboundsPage.node all_covered
node-covered n = refl

nodes_of-covered : (o : Option (List EgressNode)) → covered_blocks (InboundsPage.nodes_of o) ≡ true
nodes_of-covered none = refl
nodes_of-covered (some ns) = covered_blocks-each InboundsPage.node ns node-covered

item-covered : (i : Inbound) → covered_blocks (InboundsPage.item i) ≡ true
unfolding InboundsPage.item
item-covered i =
    covered_blocks-append (InboundsPage.card i) (InboundsPage.nodes_of i.egress_nodes)
      (card-covered i) (nodes_of-covered i.egress_nodes)

inbounds_head-covered : covered_blocks InboundsPage.head ≡ true
unfolding InboundsPage.head all_covered
inbounds_head-covered = refl

create_dialog-covered : (v : Inbounds.View) → covered_blocks (InboundsPage.create_dialog v) ≡ true
unfolding InboundsPage.create_dialog all_covered
create_dialog-covered v = refl

edit_of-covered :
    (o : Option Inbounds.InboundInput) → covered_blocks (InboundsPage.edit_of o) ≡ true
unfolding InboundsPage.edit_dialog all_covered
edit_of-covered none = refl
edit_of-covered (some i) = refl

qr_of-covered : (o : Option Inbounds.LinkNode) → covered_blocks (InboundsPage.qr_of o) ≡ true
unfolding all_covered
qr_of-covered none = refl
qr_of-covered (some n) = refl

pub inbounds-covered : (v : Inbounds.View) → covered_blocks (InboundsPage.page v) ≡ true
unfolding InboundsPage.page
inbounds-covered v =
    let items = each InboundsPage.item v.items in
    let create = InboundsPage.create_dialog v in
    let edit = InboundsPage.edit_of v.editing in
    let qr = InboundsPage.qr_of v.qr_item in
    covered_blocks-append InboundsPage.head (items ++ (create ++ (edit ++ qr)))
      inbounds_head-covered
      (covered_blocks-append items (create ++ (edit ++ qr))
        (covered_blocks-each InboundsPage.item v.items item-covered)
        (covered_blocks-append create (edit ++ qr) (create_dialog-covered v)
          (covered_blocks-append edit qr (edit_of-covered v.editing) (qr_of-covered v.qr_item))))

form-covered : (s : Settings) → covered_blocks (OptionsPage.form s) ≡ true
unfolding OptionsPage.form all_covered
form-covered s = refl

forms-covered : covered_blocks OptionsPage.forms ≡ true
unfolding OptionsPage.forms all_covered
forms-covered = refl

status_label-covered : (s : HealthStatus) → covered (OptionsPage.status_label s) ≡ true
unfolding covered
status_label-covered HealthStatus.ok = refl
status_label-covered HealthStatus.warning = refl
status_label-covered HealthStatus.error = refl
status_label-covered HealthStatus.unknown = refl

overall_status_label-covered :
    (s : HealthStatus) → covered (OptionsPage.overall_status_label s) ≡ true
unfolding covered
overall_status_label-covered HealthStatus.ok = refl
overall_status_label-covered HealthStatus.warning = refl
overall_status_label-covered HealthStatus.error = refl
overall_status_label-covered HealthStatus.unknown = refl

listener_title-covered : (c : HealthCheck) → covered_blocks (OptionsPage.listener_title c) ≡ true
unfolding OptionsPage.listener_title all_covered
listener_title-covered c = refl

when_given-covered :
    (o : Option Text) (f : Text → Message) (other : Option Message)
    → ((s : Text) → covered (f s) ≡ true)
    → all_covered (OptionsPage.detail_of other) ≡ true
    → all_covered (OptionsPage.detail_of (when_given o f other)) ≡ true
unfolding all_covered
when_given-covered none f other h k = k
when_given-covered (some s) f other h k = rw (h s) refl

module _ (date_time : Text → Option Text → Text) where
  detail-covered :
      (c : HealthCheck) → all_covered (OptionsPage.detail_of (check_detail date_time c)) ≡ true
  unfolding check_detail all_covered
  detail-covered c =
      let expires = λ (s : Text). tr "server.detail.expires" (("time", date_time s none) ∷ []) in
      let since = λ (s : Text). tr "server.detail.failedSince" (("time", date_time s none) ∷ []) in
      let last = λ (s : Text). tr "server.detail.lastSample" (("time", date_time s none) ∷ []) in
      let reset = λ (s : Text).
        tr "server.detail.nextReset"
          (("time", date_time s c.timezone) ∷ ("timezone", or_local c.timezone) ∷ []) in
      let after_last = when_given (non_empty c.next_reset_at) reset none in
      let after_since = when_given (non_empty c.last_success_at) last after_last in
      let after_expires = when_given (non_empty c.failure_since) since after_since in
      when_given-covered (non_empty c.expires_at) expires after_expires (λ s. refl)
        (when_given-covered (non_empty c.failure_since) since after_since (λ s. refl)
          (when_given-covered (non_empty c.last_success_at) last after_last (λ s. refl)
            (when_given-covered (non_empty c.next_reset_at) reset none (λ s. refl) refl)))

  check-covered : (c : HealthCheck) → covered_blocks (OptionsPage.check date_time c) ≡ true
  unfolding OptionsPage.check all_covered
  check-covered c =
      rw (status_label-covered c.status, detail-covered c, listener_title-covered c) refl

  doctor_of-covered :
      (o : Option ServerStatus) → covered_blocks (OptionsPage.doctor_of date_time o) ≡ true
  unfolding OptionsPage.doctor all_covered
  doctor_of-covered none = refl
  doctor_of-covered (some s) =
      rw
        (
          overall_status_label-covered s.health.overall,
          covered_blocks-each (OptionsPage.check date_time) s.health.checks check-covered,
        )
        refl

  page_of-covered :
      (v : Options.View) (o : Option Settings)
      → covered_blocks (OptionsPage.page_of date_time v o) ≡ true
  unfolding all_covered
  page_of-covered v none = refl
  page_of-covered v (some s) =
      covered_blocks-append (OptionsPage.form s)
        (OptionsPage.forms ++ OptionsPage.doctor_of date_time v.server) (form-covered s)
        (covered_blocks-append OptionsPage.forms (OptionsPage.doctor_of date_time v.server)
          forms-covered (doctor_of-covered v.server))

  pub options-covered : (v : Options.View) → covered_blocks (OptionsPage.page date_time v) ≡ true
  unfolding OptionsPage.page
  options-covered v = page_of-covered v v.settings
