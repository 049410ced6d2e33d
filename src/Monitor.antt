-- ===== src/Monitor.antt =====
-- operator/api/v1alpha1/collectormonitor_types.go: the custom resource. A pointer that may be nil is
-- an `Option`; a time is a number of seconds, a duration a number of nanoseconds.
pub mod Memory
pub mod Copies
pub mod Scheme
pub mod Registered
mod Tests
use collectorctrl_k8s_code.Common.{ℕ, Bool, Option, List, Text, Assoc}

pub record WorkloadSelector : Type 0 where
  pub match_labels : Assoc Text
  pub kind : Text
  pub name : Text

pub record ConfigMapSelector : Type 0 where
  pub match_labels : Assoc Text
  pub name : Text
  pub key : Text

pub record SecretRef : Type 0 where
  pub name : Text
  pub namespace : Text
  pub key : Text

pub record OpampAuth : Type 0 where
  pub secret_ref : Option SecretRef

pub record HealthCheckConfig : Type 0 where
  pub enabled : Option Bool
  pub interval : ℕ
  pub metrics_port : ℕ

pub record DriftDetectionConfig : Type 0 where
  pub enabled : Option Bool
  pub interval : ℕ

pub record EmergencyModeConfig : Type 0 where
  pub enabled : Option Bool

pub record CollectorMonitorSpec : Type 0 where
  pub workload_selector : WorkloadSelector
  pub config_map_selector : Option ConfigMapSelector
  pub opamp_server : Text
  pub auth : OpampAuth
  pub health_check : HealthCheckConfig
  pub drift_detection : DriftDetectionConfig
  pub emergency_mode : EmergencyModeConfig
  pub enrich_with_node_metadata : Option Bool

pub record ConfigMapReference : Type 0 where
  pub name : Text
  pub namespace : Text
  pub key : Text

-- metav1.Condition.
pub record Condition : Type 0 where
  pub type : Text
  pub status : Text
  pub observed_generation : ℕ
  pub last_transition_time : ℕ
  pub reason : Text
  pub message : Text

pub record CollectorMonitorStatus : Type 0 where
  pub phase : Text
  pub last_heartbeat : Option ℕ
  pub agent_count : ℕ
  pub healthy_agents : ℕ
  pub config_map_ref : Option ConfigMapReference
  pub conditions : List Condition

-- Of the object's metadata, what the operator reads.
pub record CollectorMonitor : Type 0 where
  pub name : Text
  pub namespace : Text
  pub labels : Option (Assoc Text)
  pub spec : CollectorMonitorSpec
  pub status : CollectorMonitorStatus
