-- ===== src/Types.antt =====
-- web/src/types.ts: what the panel answers, but for the types of the traffic views and of the update
-- dialog, which stand with these. A field with `?` is an Option.
pub mod Gateway
use sbm.Base.{ℕ, Bool, String, Option, List}
use sbm.Base.Text.{Text}

-- A number with a fraction, as JSON writes it: its digits, and how many of them stand behind the point.
pub record JsonNumber : Type 0 where
  pub digits : ℕ
  pub behind : ℕ

pub data TrafficBillingMode : Type 0 where
  bidirectional single : TrafficBillingMode

pub data TrafficUnit : Type 0 where
  gb gib : TrafficUnit

pub record TrafficQuota : Type 0 where
  pub amount : JsonNumber
  pub unit : TrafficUnit
  pub billing_mode : TrafficBillingMode
  pub headroom_percent : ℕ

pub data SampleStatus : Type 0 where
  waiting healthy interrupted paused : SampleStatus

pub record SampleHealth : Type 0 where
  pub status : SampleStatus
  pub last_success_at : Option Text
  pub failure_since : Option Text

pub data ResetMode : Type 0 where
  none monthly : ResetMode

pub record ResetConfig : Type 0 where
  pub mode : ResetMode
  pub day : ℕ
  pub hour : Option ℕ
  pub timezone : Text

pub data OutboundStrategy : Type 0 where
  auto prefer_ipv4 prefer_ipv6 ipv4_only ipv6_only : OutboundStrategy

pub record Settings : Type 0 where
  pub vnstat_interface : Text
  pub domain : Text
  pub panel_port : ℕ
  pub traffic_quota : TrafficQuota
  pub reset : ResetConfig
  pub outbound_strategy : OutboundStrategy
  pub subscription_url : Text

pub data HealthStatus : Type 0 where
  ok warning error unknown : HealthStatus

pub data Network : Type 0 where
  tcp udp : Network

pub record HealthCheck : Type 0 where
  pub id : Text
  pub kind : Text
  pub status : HealthStatus
  pub reason : Text
  pub checked_at : Text
  pub protocol : Option Network
  pub port : Option ℕ
  pub percent : Option JsonNumber
  pub expires_at : Option Text
  pub last_success_at : Option Text
  pub failure_since : Option Text
  pub next_reset_at : Option Text
  pub timezone : Option Text

pub record HealthReport : Type 0 where
  pub overall : HealthStatus
  pub checks : List HealthCheck
  pub checked_at : Text

pub record ServerStatus : Type 0 where
  pub hostname : Text
  pub os : Text
  pub kernel : Text
  pub architecture : Text
  pub cpu_cores : ℕ
  pub cpu_percent : JsonNumber
  pub load1 : JsonNumber
  pub load5 : JsonNumber
  pub load15 : JsonNumber
  pub memory_total : ℕ
  pub memory_used : ℕ
  pub memory_percent : JsonNumber
  pub disk_total : ℕ
  pub disk_used : ℕ
  pub disk_percent : JsonNumber
  pub uptime_seconds : ℕ
  pub collected_at : Text
  pub health : HealthReport

pub data CoreStatus : Type 0 where
  running stopped unknown : CoreStatus

pub record VlessOptions : Type 0 where
  pub uuid : Text
  pub sni : Text
  pub private_key : Text
  pub public_key : Text
  pub short_id : Text

pub record Hysteria2Options : Type 0 where
  pub password : Text
  pub obfs : Option Text
  pub obfs_password : Option Text

pub record EgressNode : Type 0 where
  pub gateway_id : Text
  pub name : Text
  pub link : Text
  pub marker : Text
  pub location : Text

pub data InboundType : Type 0 where
  vless_reality hysteria2 : InboundType

pub record Inbound : Type 0 where
  pub id : Text
  pub type : InboundType
  pub name : Text
  pub enabled : Bool
  pub port : ℕ
  pub network : Network
  pub link : Text
  pub vless : Option VlessOptions
  pub hysteria2 : Option Hysteria2Options
  pub egress_nodes : Option (List EgressNode)
