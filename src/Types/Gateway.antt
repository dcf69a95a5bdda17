-- ===== src/Types/Gateway.antt =====
-- The gateways of web/src/types.ts, and the overview that lists them.
use sbm.Base.{ℕ, Bool, Option, List}
use sbm.Base.Text.{Text}
use sbm.Base.Int.{ℤ}
use sbm.Types.{JsonNumber, TrafficQuota, SampleHealth, ResetConfig, CoreStatus}

pub record GatewayGeo : Type 0 where
  pub ip : Text
  pub country_code : Text
  pub country : Text
  pub region : Text
  pub city : Text
  pub updated_at : Text

pub data GatewaySampleStatus : Type 0 where
  waiting healthy interrupted disabled : GatewaySampleStatus

pub record GatewaySample : Type 0 where
  pub status : GatewaySampleStatus
  pub last_success_at : Option Text
  pub failure_since : Option Text
  pub partial : Option Bool

pub record GatewayUsage : Type 0 where
  pub id : Text
  pub name : Text
  pub marker : Text
  pub location : Text
  pub enabled : Bool
  pub tunnel_tx : ℕ
  pub tunnel_rx : ℕ
  pub tunnel_bytes : ℕ
  pub traffic_quota : TrafficQuota
  pub provider_allowance_bytes : ℕ
  pub estimated_provider_used_bytes : ℕ
  pub provider_remaining_bytes : ℕ
  pub provider_progress : JsonNumber
  pub usage_calibrated : Option Bool
  pub paused : Option Bool
  pub warning : Bool
  pub period_started_at : Text
  pub next_reset_at : Option Text
  pub sample_health : GatewaySample
  pub persistence_health : Option SampleHealth

pub record GatewayInput : Type 0 where
  pub enabled : Bool
  pub marker : Text
  pub position : ℤ
  pub server : Text
  pub server_port : ℕ
  pub private_key : Text
  pub peer_public_key : Text
  pub location_override : Text
  pub traffic_quota : TrafficQuota
  pub reset : ResetConfig
  pub stop_on_quota : Option Bool

-- `extends GatewayInput`: what it inherits stands in `input`.
pub record EgressGateway : Type 0 where
  pub input : GatewayInput
  pub id : Text
  pub tunnel_slot : ℕ
  pub geo : GatewayGeo
  pub public_key : Text
  pub name : Text
  pub location : Text
  pub tunnel_address : Text
  pub peer_address : Text
  pub usage : GatewayUsage

pub record Dashboard : Type 0 where
  pub traffic_source : Text
  pub network_interface : Text
  pub network_reason : Text
  pub network_available : Bool
  pub network_partial : Bool
  pub egress_gateways : List GatewayUsage
  pub core_status : CoreStatus
  pub core_version : Text
  pub panel_version : Text
  pub upload : ℕ
  pub download : ℕ
  pub proxy_used_bytes : ℕ
  pub traffic_quota : TrafficQuota
  pub effective_limit_bytes : ℕ
  pub provider_allowance_bytes : ℕ
  pub estimated_provider_used_bytes : ℕ
  pub provider_stop_bytes : ℕ
  pub provider_remaining_bytes : ℕ
  pub provider_progress : JsonNumber
  pub realtime_estimate_bytes : Option ℕ
  pub usage_calibrated : Option Bool
  pub period_started_at : Text
  pub next_reset_at : Option Text
  pub quota_exceeded : Bool
  pub sample_health : SampleHealth
  pub persistence_health : Option SampleHealth
  pub subscription_url : Text
  pub subscription_name : Text
