-- ===== src/Settings.antt =====
-- The script of web/src/views/SettingsView.vue: the settings and their saving, the password, and the checks
-- of the server. Each function is cut at its `await`.
pub mod Page
pub mod Laws
mod Tests
use sbm.Base.{
  ℕ, suc, ◌+◌, ◌-◌, ◌*◌, min, Bool, true, false, ◌&&◌, ◌||◌, not, Option, none, some, List, [], ◌∷◌,
  ◌++◌, String, if◌then◌else◌, ltb, leb,
}
use sbm.Base.Text.{Text, codes, text_eq}
use sbm.Message.{Message, t, tr, Thrown, error_message}
use sbm.Async.{Settled, fulfilled, rejected}
use sbm.Types.{
  JsonNumber, TrafficQuota, ResetConfig, OutboundStrategy, Settings, HealthStatus, HealthCheck,
  ServerStatus,
}

pub record Password : Type 0 where
  pub current_password : Text
  pub new_password : Text
  pub confirm : Text

-- `ticking` says that the interval lives; `toasts` has the last message first; `logged_out` counts the
-- events that the view has emitted.
pub record View : Type 0 where
  pub settings : Option Settings
  pub server : Option ServerStatus
  pub password : Password
  pub disposed : Bool
  pub ticking : Bool
  pub toasts : List Message
  pub logged_out : ℕ

unfoldable pub setup : View
setup = record {
  settings = none;
  server = none;
  password = record { current_password = []; new_password = []; confirm = [] };
  disposed = false;
  ticking = false;
  toasts = [];
  logged_out = 0;
}

-- The requests, with their bodies.
pub data Sent : Type 0 where
  get_settings get_server post_token : Sent
  put_traffic : TrafficQuota → Text → ResetConfig → Sent
  put_outbound : OutboundStrategy → Sent
  post_password : Text → Text → Sent

-- The JSON of an answer, at every type that a caller casts it to.
pub record Body : Type 0 where
  pub as_settings : Settings
  pub as_server : ServerStatus
  pub subscription_url : Text

abbrev pub Reply : Type 0
Reply = Settled Body Thrown

abbrev pub emit : Message → View → View
emit m v = record v { toasts = m ∷ v.toasts }

-- The plan less its headroom of at most a half. The form's numbers are taken as they are stored, finite
-- and not below 0, and the product as an exact number, where the source's is a double.
unfoldable pub provider_stop : TrafficQuota → JsonNumber
provider_stop q = record {
  digits = q.amount.digits * (100 - min 50 q.headroom_percent);
  behind = q.amount.behind + 2;
}

unfoldable pub quota_preview : Option Settings → JsonNumber
unfolding provider_stop
quota_preview none = record { digits = 0; behind = 0 }
quota_preview (some s) = provider_stop s.traffic_quota

abbrev is_ok : HealthStatus → Bool
is_ok HealthStatus.ok = true
is_ok _ = false

abbrev count_ok : List HealthCheck → ℕ
count_ok [] = 0
count_ok (c ∷ cs) = if is_ok c.status then suc (count_ok cs) else count_ok cs

unfoldable pub passed_checks : Option ServerStatus → ℕ
passed_checks none = 0
passed_checks (some s) = count_ok s.health.checks

abbrev pub non_empty : Option Text → Option Text
non_empty none = none
non_empty (some []) = none
non_empty (some (c ∷ s)) = some (c ∷ s)

abbrev pub or_local : Option Text → Text
or_local o = elim (non_empty o) [ none ↦ codes "Local" | some s ↦ s ]

-- `if (value) return …`
abbrev pub when_given : Option Text → (Text → Message) → Option Message → Option Message
when_given none f other = other
when_given (some s) f other = some (f s)

-- `dateTime`, with the time zone that it is given, is the browser's.
unfoldable pub check_detail : (Text → Option Text → Text) → HealthCheck → Option Message
check_detail date_time c =
    when_given (non_empty c.expires_at)
      (λ s. tr "server.detail.expires" (("time", date_time s none) ∷ []))
      (when_given (non_empty c.failure_since)
        (λ s. tr "server.detail.failedSince" (("time", date_time s none) ∷ []))
        (when_given (non_empty c.last_success_at)
          (λ s. tr "server.detail.lastSample" (("time", date_time s none) ∷ []))
          (when_given (non_empty c.next_reset_at)
            (λ s.
              tr "server.detail.nextReset"
                (("time", date_time s c.timezone) ∷ ("timezone", or_local c.timezone) ∷ []))
            none)))

-- `new TextEncoder().encode(s).length`: UTF-8 of the code units, a pair of surrogates as one character
-- and a single one as U+FFFD.
abbrev in_block : ℕ → ℕ → Bool
in_block c from = leb from c && ltb c (from + 1024)

unfoldable pub byte_length : Text → ℕ
byte_length [] = 0
byte_length (c ∷ []) = if ltb c 128 then 1 else if ltb c 2048 then 2 else 3
byte_length (c ∷ d ∷ s) =
    let rest = byte_length s in
    let next = byte_length (d ∷ s) in
    if ltb c 128
    then 1 + next
    else if ltb c 2048
    then 2 + next
    else if in_block c 55296 && in_block d 56320
    then 4 + rest
    else 3 + next

unfoldable pub load : View → View × List Sent
load v = (v, get_settings ∷ [])

unfoldable pub load_server : View → View × List Sent
load_server v = (v, get_server ∷ [])

unfoldable pub save_traffic : View → View × List Sent
save_traffic v = elim v.settings [
  | none ↦ (v, [])
  | some s ↦ (v, put_traffic s.traffic_quota s.vnstat_interface s.reset ∷ [])
]

unfoldable pub save_outbound : View → View × List Sent
save_outbound v = elim v.settings [
  | none ↦ (v, [])
  | some s ↦ (v, put_outbound s.outbound_strategy ∷ [])
]

unfoldable pub token : View → View × List Sent
token v = (v, post_token ∷ [])

unfoldable pub change_password : View → View × List Sent
change_password v =
    let p = v.password in
    let size = byte_length p.new_password in
    if not (text_eq p.new_password p.confirm)
    then (emit (t "settings.passwordMismatch") v, [])
    else if ltb size 12 || ltb 72 size
    then (emit (t "settings.passwordLength") v, [])
    else (v, post_password p.current_password p.new_password ∷ [])

abbrev with_url : Text → Option Settings → Option Settings
with_url url none = none
with_url url (some s) = some (record s { subscription_url = url })

-- The rest of each function behind its request: a failure is shown, but for that of `loadServer`.
unfoldable pub resume : Sent → Reply → View → View × List Sent
unfolding load_server
resume get_server (rejected e) v = (v, [])
resume q (rejected e) v = (emit (error_message e) v, [])
resume get_settings (fulfilled b) v = load_server (record v { settings = some b.as_settings })
resume get_server (fulfilled b) v =
    (if v.disposed then v else record v { server = some b.as_server }, [])
resume (put_traffic q i r) (fulfilled b) v =
    let (w, more) = load_server v in (emit (t "settings.trafficSaved") w, more)
resume (put_outbound s) (fulfilled b) v =
    let (w, more) = load_server v in (emit (t "settings.outboundSaved") w, more)
resume post_token (fulfilled b) v = (
  emit (t "settings.tokenDone") (record v { settings = with_url b.subscription_url v.settings }),
  [],
)
resume (post_password old new) (fulfilled b) v =
    (record (emit (t "settings.passwordDone") v) { logged_out = suc v.logged_out }, [])

-- What the template, the interval and the browser call.
pub data Action : Type 0 where
  mounted interval unmounted traffic_submitted outbound_submitted token_confirmed
        password_submitted :
      Action
  settings_typed : TrafficQuota → Text → ResetConfig → OutboundStrategy → Action
  password_typed : Password → Action

abbrev with_fields :
    TrafficQuota → Text → ResetConfig → OutboundStrategy → Option Settings → Option Settings
with_fields q i r o none = none
with_fields q i r o (some s) =
    some (record s { traffic_quota = q; vnstat_interface = i; reset = r; outbound_strategy = o })

unfoldable pub handle : Action → View → View × List Sent
handle mounted v = let (w, more) = load v in (record w { ticking = true }, more)
handle interval v = if v.ticking then load_server v else (v, [])
handle unmounted v = (record v { disposed = true; ticking = false }, [])
handle traffic_submitted v = save_traffic v
handle outbound_submitted v = save_outbound v
handle token_confirmed v = token v
handle password_submitted v = change_password v
handle (settings_typed q i r o) v = (record v { settings = with_fields q i r o v.settings }, [])
handle (password_typed p) v = (record v { password = p }, [])
