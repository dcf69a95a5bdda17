-- ===== src/Api/Tests.antt =====
-- An answer of the server that is not ok.
use sbm.Base.{ℕ, false, none, some}
use sbm.Base.Text.{codes}
use sbm.Async.{rejected}
use sbm.I18n.{en, Catalog, or_text}
use sbm.Api.{Answer, settle, server_message}
use sbm.Api.Laws.{Tells, settle-Tells}

abbrev untranslated : Catalog
untranslated l key = none

abbrev conflict : Answer ℕ
conflict = record {
  ok = false;
  status = 409;
  error = some (codes "busy");
  error_en = none;
  content = 0;
}

settle-Tells_example :
    Tells {A = ℕ} untranslated en
      (some conflict)
      (rejected (record { message = codes "busy"; status = some 409 }))
unfolding settle server_message or_text
settle-Tells_example = settle-Tells untranslated en (some conflict)
