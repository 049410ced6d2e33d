-- ===== src/Opamp/Tests.antt =====
-- Runs of the client on small messages, and its theorems at those.
use collectorctrl_k8s_code.Common.{
  ℕ, suc, ◌≤◌, Bool, true, false, none, some, [], ◌∷◌, ◌++◌, ◌≡◌, ◌≢◌, refl, Text, text, All, arith,
  fold_rune, trim_space, length,
}
use collectorctrl_k8s_code.Common.Cut.{Lacks}
use collectorctrl_k8s_code.Api.{kubernetes, degraded}
use collectorctrl_k8s_code.Opamp.Protocol.{OpampLib, CustomMessage, MessageData, health, end}
use collectorctrl_k8s_code.Opamp.Session.{start_client}
use collectorctrl_k8s_code.Opamp.Starting.{recording, MadeCalls, start_calls, start_client-calls}
use collectorctrl_k8s_code.Opamp.Messages.{
  emergency_content, emergency_command-content, IsRequested, on_message-IsRequested,
}
use collectorctrl_k8s_code.Opamp.Health.{find_component, components_of, fleet_health-pod}
use collectorctrl_k8s_code.Opamp.{
  Client, ClientConfig, PodHealth, new_client, emergency_command, on_message, fleet_health,
  pod_status,
}

-- An opamp-go that numbers its connections and never fails.
abbrev tally : OpampLib
tally = record {
  State = ℕ;
  Conn = ℕ;
  new_web_socket = λ s. (s, suc s);
  perform = λ conn call s. (none, suc s);
  md5 = λ s. s;
  range_order = λ l. l;
}

abbrev config : ClientConfig
config = record {
  endpoint = text "wss://server";
  headers = (text "authorization", text "Secret-Key k") ∷ [];
  tls_config = none;
  agent_id = text "a";
  agent_type = kubernetes;
  labels = [];
  k8s_context = none;
}

abbrev fresh : Client ℕ ℕ
fresh = record {
  config = config;
  client = none;
  connected = false;
  effective_config = [];
  on_config_update = none;
  on_emergency_cmd = some 7;
  on_fetch_logs = some 8;
}

abbrev running : Client ℕ ℕ
running = record fresh { client = some 3 }

new_client_run :
    new_client ℕ ℕ config ≡ record fresh { on_emergency_cmd = none; on_fetch_logs = none }
unfolding new_client
new_client_run = refl

start_client-calls_example :
    let r = start_client (recording tally) fresh (3, []) in
    MadeCalls r.0 [] r.2.1 (start_calls tally config) × (r.1 ≡ record fresh { client = some 3 })
start_client-calls_example = start_client-calls tally fresh 3 []

abbrev reason : Text
reason = text " disk full "

reason-Lacks : Lacks 10 reason
unfolding text fold_rune
reason-Lacks = omega arith

emergency_command-content_example :
    emergency_command (emergency_content reason (text "a: 1"))
    ≡ record { config_yaml = text "a: 1"; reason = trim_space reason }
emergency_command-content_example = emergency_command-content reason (text "a: 1") reason-Lacks

abbrev said : Text → Text → CustomMessage
said capability content = record {
  capability = capability;
  type = text "Emergency";
  content = content;
}

abbrev message : CustomMessage → MessageData
message cm = record { remote_config = none; custom_message = some cm }

on_message-IsRequested_example :
    let msg = message (said (text "CollectorCtrl") (text "a")) in
    All (IsRequested fresh msg) (on_message fresh msg) × (length (on_message fresh msg) ≤ 2)
on_message-IsRequested_example =
    on_message-IsRequested fresh (message (said (text "CollectorCtrl") (text "a")))

abbrev pod : Text → Bool → PodHealth
pod name ready = record {
  name = name;
  node = text "n";
  ip = text "10.0.0.1";
  ready = ready;
  phase = text "Running";
}

other_name : text "b" ≢ text "a"
unfolding text fold_rune
other_name h = absurd (ground arith)

fleet_health-pod_example :
    find_component (text "pod/" ++ text "a") (
      components_of (
        fleet_health degraded
          (pod (text "a") false ∷ pod (text "a") true ∷ pod (text "b") true ∷ [])))
    ≡ some (health true (pod_status (pod (text "a") true)) end)
fleet_health-pod_example =
    fleet_health-pod degraded (pod (text "a") false ∷ []) (pod (text "b") true ∷ [])
      (pod (text "a") true) (other_name, tt)
