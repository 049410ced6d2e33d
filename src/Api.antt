-- ===== src/Api.antt =====
-- pkg/api/types.go: the types that the server and the operator share.
use collectorctrl_k8s_code.Common.{ℕ, Bool, Option, List, Text, text, Assoc}

pub data AgentType : Type 0 where
  vm windows linux kubernetes : AgentType

-- The string that a constant stands for.
unfoldable pub agent_type_name : AgentType → Text
agent_type_name vm = text "vm"
agent_type_name windows = text "windows"
agent_type_name linux = text "linux"
agent_type_name kubernetes = text "kubernetes"

pub record K8sContext : Type 0 where
  pub cluster_name : Text
  pub cluster_id : Text
  pub namespace : Text
  pub node_name : Text
  pub pod_name : Text
  pub pod_uid : Text
  pub workload_type : Text
  pub workload_name : Text
  pub container_name : Text
  pub git_commit : Text
  pub git_repo : Text
  pub config_map_name : Text
  pub config_map_key : Text

pub data HealthStatus : Type 0 where
  healthy degraded unhealthy unknown drift : HealthStatus

-- A duration in nanoseconds; a time is a number of nanoseconds too.
pub record RolloutStrategy : Type 0 where
  pub canary_percentage : ℕ
  pub observation_window : ℕ
  pub auto_promote : Bool
  pub auto_rollback : Bool

-- `Float` stands for float64.
pub record Agent (Float : Type 0) : Type 0 where
  pub id : Text
  pub type : AgentType
  pub display_name : Text
  pub hostname : Text
  pub version : Text
  pub effective_config : Text
  pub effective_config_hash : Text
  pub desired_config_hash : Text
  pub health : HealthStatus
  pub last_seen : ℕ
  pub labels : Assoc Text
  pub kubernetes : Option K8sContext
  pub metrics_snapshot : Assoc Float

pub record FleetPolicy : Type 0 where
  pub id : Text
  pub name : Text
  pub description : Text
  pub match_labels : Assoc Text
  pub config_yaml : Text
  pub rollout : Option RolloutStrategy

pub record ConfigChangeRequest : Type 0 where
  pub target_policy_id : Text
  pub new_config_yaml : Text
  pub is_emergency : Bool
  pub git_commit_message : Text

pub record ConfigChangeResult : Type 0 where
  pub change_id : Text
  pub status : Text
  pub git_commit : Text
  pub git_pr_url : Text
  pub affected_agents : List Text
  pub error : Text
  pub started_at : ℕ
  pub completed_at : Option ℕ
