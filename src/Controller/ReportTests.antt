-- ===== src/Controller/ReportTests.antt =====
-- The theorem on the health report of operator/controllers/collectormonitor_controller.go, at a
-- connection of the simulated cluster.
use collectorctrl_k8s_code.Common.{ℕ, true, none, some, List, [], ◌∷◌, Text, text}
use collectorctrl_k8s_code.Api.{kubernetes}
use collectorctrl_k8s_code.Opamp.{Client}
use collectorctrl_k8s_code.Controller.Action.{World, Captured}
use collectorctrl_k8s_code.Controller.Cluster.{Pod}
use collectorctrl_k8s_code.Controller.Connection.{connection_key}
use collectorctrl_k8s_code.Controller.Simulated.{usual, env_of, start, pod}

abbrev object : Client ℕ Captured
object = record {
  config = record {
    endpoint = [];
    headers = [];
    tls_config = none;
    agent_id = [];
    agent_type = kubernetes;
    labels = [];
    k8s_context = none;
  };
  client = some 0;
  connected = true;
  effective_config = [];
  on_config_update = none;
  on_emergency_cmd = none;
  on_fetch_logs = none;
}

abbrev monitor_key : Text
monitor_key = connection_key (text "obs") (text "mon")

abbrev connected : World (env_of usual none)
connected = record (start usual none) {
  opamp_clients = (monitor_key, 0) ∷ [];
  opamp_started = (monitor_key, true) ∷ [];
  store = object ∷ [];
}

abbrev pods : List Pod
pods = pod (text "p") true (text "0102") ∷ []
