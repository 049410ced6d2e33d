-- ===== src/Controller/Cluster.antt =====
-- What operator/controllers/collectormonitor_controller.go uses of Kubernetes: the objects that it
-- reads, as far as it reads them, and the API as an interface.
use collectorctrl_k8s_code.Common.{ℕ, Option, List, Text, text, Assoc, ◌⊎◌, GoError}
use collectorctrl_k8s_code.Monitor.{CollectorMonitor}

pub record ObjectKey : Type 0 where
  pub namespace : Text
  pub name : Text

pub data WorkloadKind : Type 0 where
  daemon_set deployment stateful_set : WorkloadKind

unfoldable pub kind_name : WorkloadKind → Text
kind_name daemon_set = text "DaemonSet"
kind_name deployment = text "Deployment"
kind_name stateful_set = text "StatefulSet"

-- A workload; its `spec.selector` is a pointer.
pub record Workload : Type 0 where
  pub kind : WorkloadKind
  pub name : Text
  pub namespace : Text
  pub selector : Option (Assoc Text)

-- A config map; a nil `Data` map is `none`.
pub record ConfigMap : Type 0 where
  pub name : Text
  pub namespace : Text
  pub contents : Option (Assoc Text)

pub record PodCondition : Type 0 where
  pub type : Text
  pub status : Text

pub record Pod : Type 0 where
  pub name : Text
  pub node_name : Text
  pub pod_ip : Text
  pub phase : Text
  pub conditions : List PodCondition
  pub annotations : Assoc Text

-- The arguments of an event that the recorder is given; the type is always Warning.
pub record Event : Type 0 where
  pub reason : Text
  pub message : Text

-- A call answers with a value or an error and leaves a new state of the cluster; between two calls
-- the cluster may change in any way, which the calls' results take in.
abbrev pub Answer : Type 0 → Type 0 → Type 0
Answer S A = (GoError ⊎ A) × S

pub record Cluster : Type 1 where
  pub State : Type 0
  pub get_monitor : ObjectKey → State → Answer State CollectorMonitor
  pub list_monitors : Text → State → Answer State (List CollectorMonitor)
  pub update_status : CollectorMonitor → State → Option GoError × State
  pub list_workloads : WorkloadKind → Assoc Text → Text → State → Answer State (List Workload)
  pub patch_workload : Workload → Text → State → Option GoError × State
  pub get_config_map : ObjectKey → State → Answer State ConfigMap
  pub update_config_map : ConfigMap → State → Option GoError × State
  pub get_secret : ObjectKey → State → Answer State (Assoc Text)
  pub list_pods : Assoc Text → Text → State → Answer State (List Pod)
  -- the clientset: a stream of logs, of the last lines, and all that can be read from it
  pub LogStream : Type 0
  pub open_logs : Text → Text → ℕ → State → Answer State LogStream
  pub read_all : LogStream → State → Answer State Text
  pub close_logs : LogStream → State → State
  -- the event recorder, the clock in seconds, time.RFC3339, SHA-256
  pub record_event : CollectorMonitor → Event → State → State
  pub now : State → ℕ × State
  pub rfc3339 : ℕ → Text
  pub sha256 : Text → List ℕ
