-- ===== src/Controller/Simulated.antt =====
-- A small cluster and a small opamp-go, for runs of the controller of
-- operator/controllers/collectormonitor_controller.go on concrete input.
use collectorctrl_k8s_code.Common.{
  ℕ, suc, Bool, true, false, Option, none, some, List, [], ◌∷◌, Text, text, ◌⊎◌, inl, inr, GoError,
  Assoc, if◌then◌else◌,
}
use collectorctrl_k8s_code.Monitor.{
  CollectorMonitor, CollectorMonitorSpec, CollectorMonitorStatus, ConfigMapReference,
  WorkloadSelector,
}
use collectorctrl_k8s_code.Opamp.Protocol.{OpampLib}
use collectorctrl_k8s_code.Controller.Cluster.{
  Cluster, Workload, WorkloadKind, daemon_set, deployment, stateful_set, ConfigMap, Pod,
}
use collectorctrl_k8s_code.Controller.Action.{Env, World}

abbrev pub selector : WorkloadSelector
selector = record { match_labels = (text "app", text "otel") ∷ []; kind = []; name = text "agent" }

abbrev pub reference : ConfigMapReference
reference = record { name = text "cfg"; namespace = text "obs"; key = text "config.yaml" }

abbrev pub spec : CollectorMonitorSpec
spec = record {
  workload_selector = selector;
  config_map_selector = some (record { match_labels = []; name = text "cfg"; key = [] });
  opamp_server = text "wss://server";
  auth = record { secret_ref = none };
  health_check = record { enabled = none; interval = 0; metrics_port = 0 };
  drift_detection = record { enabled = none; interval = 0 };
  emergency_mode = record { enabled = none };
  enrich_with_node_metadata = none;
}

abbrev pub status : CollectorMonitorStatus
status = record {
  phase = [];
  last_heartbeat = none;
  agent_count = 0;
  healthy_agents = 0;
  config_map_ref = some reference;
  conditions = [];
}

abbrev pub monitor : CollectorMonitor
monitor = record {
  name = text "mon";
  namespace = text "obs";
  labels = none;
  spec = spec;
  status = status;
}

abbrev pub workload : Text → Workload
workload name = record {
  kind = deployment;
  name = name;
  namespace = text "obs";
  selector = some ((text "app", text "otel") ∷ []);
}

abbrev pub not_found : GoError
not_found = record { message = text "not found"; is_not_found = true }

abbrev pub config_map : Option (Assoc Text) → ConfigMap
config_map contents = record { name = text "cfg"; namespace = text "obs"; contents = contents }

abbrev pub pod : Text → Bool → Text → Pod
pod name ready hash = record {
  name = name;
  node_name = text "n";
  pod_ip = [];
  phase = text "Running";
  conditions =
      (record { type = text "Ready"; status = if ready then text "True" else text "False" }) ∷ [];
  annotations = (text "collectorctrl.io/config-hash", hash) ∷ [];
}

-- What the cluster holds, and which writes it refuses.
pub record Setup : Type 0 where
  pub monitor : GoError ⊎ CollectorMonitor
  pub deployments : List Workload
  pub contents : Option (Assoc Text)
  pub update_error : Option GoError
  pub patch_error : Option GoError

-- The state counts the writes to config maps and to workloads, and the events.
abbrev pub Counts : Type 0
Counts = ℕ × ℕ

abbrev pub listed : Setup → WorkloadKind → List Workload
listed setup daemon_set = []
listed setup deployment = setup.deployments
listed setup stateful_set = []

abbrev pub simulated : Setup → Cluster
simulated setup = record {
  State = Counts;
  get_monitor = λ key s. (setup.monitor, s);
  list_monitors = λ ns s. (inr (monitor ∷ []), s);
  update_status = λ m s. (none, s);
  list_workloads = λ kind labels ns s. (inr (listed setup kind), s);
  patch_workload = λ w p s. (setup.patch_error, (suc s.0, s.1));
  get_config_map = λ key s. (inr (config_map setup.contents), s);
  update_config_map = λ cm s. (setup.update_error, (suc s.0, s.1));
  get_secret = λ key s. (inl not_found, s);
  list_pods = λ labels ns s. (inr (pod (text "p") true (text "0102") ∷ []), s);
  LogStream = Text;
  open_logs = λ ns name lines s. (inr name, s);
  read_all = λ stream s. (inr stream, s);
  close_logs = λ stream s. s;
  record_event = λ m e s. (s.0, suc s.1);
  now = λ s. (5, s);
  rfc3339 = λ t. text "1970-01-01T00:00:05Z";
  sha256 = λ config. 0 ∷ 255 ∷ [];
}

abbrev pub opamp : Option GoError → OpampLib
opamp answer = record {
  State = ℕ;
  Conn = ℕ;
  new_web_socket = λ s. (s, suc s);
  perform = λ conn call s. (answer, s);
  md5 = λ s. s;
  range_order = λ l. l;
}

abbrev pub env_of : Setup → Option GoError → Env
env_of setup answer = record { cluster = simulated setup; lib = opamp answer }

abbrev pub usual : Setup
usual = record {
  monitor = inr monitor;
  deployments = workload (text "other") ∷ workload (text "agent") ∷ [];
  contents = some ((text "config.yaml", text "a: 1") ∷ []);
  update_error = none;
  patch_error = none;
}

abbrev pub start : (setup : Setup) (answer : Option GoError) → World (env_of setup answer)
start setup answer = record {
  opamp_clients = [];
  opamp_started = [];
  default_secret_key = [];
  has_clientset = false;
  store = [];
  cluster = (0, 0);
  lib = 0;
}

abbrev pub show_selector : WorkloadSelector → Text
show_selector s = s.name

abbrev pub quote : Text → Text
quote s = s
