-- ===== src/Api.antt =====
-- web/src/api.ts: what is sent, and what becomes of the answer. `fetch` is the browser's: a request
-- goes out, and an answer or a failure of the network comes back.
pub mod Laws
mod Tests
use sbm.Base.{
  ℕ, Bool, true, false, ◌&&◌, ◌||◌, not, Option, none, some, List, [], ◌∷◌, ◌==◌, if◌then◌else◌,
}
use sbm.Base.Text.{Text, codes, text_eq}
use sbm.Base.Decimal.{decimal}
use sbm.Async.{Settled, fulfilled, rejected}
use sbm.I18n.{Locale, zh_cn, en, Catalog, or_text, t}

pub record Options : Type 0 where
  pub method : Option Text
  pub body : Option Text

-- Headers that are not set are `none`.
pub record Request : Type 0 where
  pub url : Text
  pub options : Options
  pub content_type : Option Text
  pub csrf_token : Option Text

-- A text that counts as true.
abbrev pub truthy : Option Text → Bool
truthy none = false
truthy (some []) = false
truthy (some (c ∷ s)) = true

unfoldable pub is_change : Option Text → Bool
is_change none = false
is_change (some m) = truthy (some m) && not (text_eq m (codes "GET") || text_eq m (codes "HEAD"))

-- `api`, up to the `fetch`, with the token of `setCSRF`.
unfoldable pub request : Text → Text → Options → Request
request csrf_token url o = record {
  url = url;
  options = o;
  content_type = if truthy o.body then some (codes "application/json") else none;
  csrf_token = if is_change o.method then some csrf_token else none;
}

abbrev pub get : Options
get = record { method = none; body = none }

-- The options of `post`, `put` and `del`, with the body as JSON.
unfoldable pub post : Text → Options
post body = record { method = some (codes "POST"); body = some body }

unfoldable pub put : Text → Options
put body = record { method = some (codes "PUT"); body = some body }

unfoldable pub del : Options
del = record { method = some (codes "DELETE"); body = some (codes "{}") }

-- What `fetch` gives: a failure, or an answer with its JSON, where a body that is no JSON has no field.
pub record Answer (A : Type 0) : Type 0 where
  pub ok : Bool
  pub status : ℕ
  pub error : Option Text
  pub error_en : Option Text
  pub content : A

abbrev pub Response : Type 0 → Type 0
Response A = Option (Answer A)

pub record Failure : Type 0 where
  pub message : Text
  pub status : Option ℕ

-- `response.status === 401 && url !== '/api/login'` of an answer that is not ok.
unfoldable pub unauthorized : {A : Type 0} → Text → Response A → Bool
unauthorized url none = false
unauthorized url (some a) = not a.ok && a.status == 401 && not (text_eq url (codes "/api/login"))

module _ (messages : Catalog) (locale : Locale) where
  unfoldable pub server_message : {A : Type 0} → Answer A → Option Text
  server_message a = elim locale [
    | en ↦ some (or_text a.error_en (or_text a.error []))
    | zh_cn ↦ a.error
  ]

  -- The rest of `api`, but for the call of the handler, which `unauthorized` tells.
  unfoldable pub settle : {A : Type 0} → Response A → Settled A Failure
  unfolding server_message
  settle none =
      rejected (record { message = t messages locale (codes "api.unreachable") []; status = none })
  settle (some a) =
      if a.ok
      then fulfilled a.content
      else rejected (record {
        message =
            or_text (server_message a)
              (t messages locale (codes "api.failed") ((codes "status", decimal a.status) ∷ []));
        status = some a.status;
      })

-- `errorMessage` of what `api` throws.
unfoldable pub shown_message : Catalog → Locale → Failure → Text
shown_message messages locale e =
    or_text (some e.message) (t messages locale (codes "api.unreachable") [])
