-- ===== src/Opamp.antt =====
-- pkg/opamp/client.go: the fleet-level OpAMP client. A method takes the client object and the
-- state of opamp-go, and returns them beside its error. `H` stands for the registered closures.
pub mod Protocol
pub mod Session
pub mod Starting
pub mod Messages
pub mod Requests
pub mod Health
mod Tests
use mathlib.Core.List.{foldl}
use collectorctrl_k8s_code.Common.{
  ℕ, ◌-◌, ◌+◌, Bool, true, false, Option, none, some, List, [], ◌∷◌, ◌++◌, map, Text, text, ◌==◌,
  trim_prefix, split_n, trim_space, equal_fold, show_nat, show_hex, if◌then◌else◌, ◌&&◌, ◌||◌,
  Assoc, insert, GoError, errorf, wrapf, length, count_if, eqb, leb,
}
use collectorctrl_k8s_code.Api.{
  AgentType, agent_type_name, K8sContext, RolloutStrategy, HealthStatus, healthy,
}
use collectorctrl_k8s_code.Opamp.Protocol.{
  ComponentHealth, health, Components, end, component, set_component, KeyValue, AgentDescription,
  AgentConfigFile, EffectiveConfig, CustomMessage, RemoteConfig, MessageData, TlsConfig,
  StartSettings, Call, set_agent_description, set_health, start, stop, update_effective_config,
  send_custom_message, OpampLib, reports_health, reports_effective_config, reports_status,
  accepts_restart_command, accepts_remote_config,
}

pub record ClientConfig : Type 0 where
  pub endpoint : Text
  pub headers : Assoc Text
  pub tls_config : Option TlsConfig
  pub agent_id : Text
  pub agent_type : AgentType
  pub labels : Assoc Text
  pub k8s_context : Option K8sContext

pub record Client (Conn H : Type 0) : Type 0 where
  pub config : ClientConfig
  pub client : Option Conn
  pub connected : Bool
  pub effective_config : Text
  pub on_config_update : Option H
  pub on_emergency_cmd : Option H
  pub on_fetch_logs : Option H

pub record ConfigUpdate : Type 0 where
  pub config_yaml : Text
  pub config_hash : Text
  pub rollout_strategy : Option RolloutStrategy

pub record EmergencyCommand : Type 0 where
  pub config_yaml : Text
  pub reason : Text

pub record PodHealth : Type 0 where
  pub name : Text
  pub node : Text
  pub ip : Text
  pub ready : Bool
  pub phase : Text

-- What a message from the server makes the client run.
pub data Invocation (H : Type 0) : Type 0 where
  config_update : H → ConfigUpdate → Invocation H
  emergency : H → EmergencyCommand → Invocation H
  fetch_logs : H → Text → Invocation H

unfoldable pub new_client : (Conn H : Type 0) → ClientConfig → Client Conn H
new_client Conn H cfg = record {
  config = cfg;
  client = none;
  connected = false;
  effective_config = [];
  on_config_update = none;
  on_emergency_cmd = none;
  on_fetch_logs = none;
}

unfoldable pub key_val : Text → Text → KeyValue
key_val k v = record { key = k; value = v }

-- The context attributes of `agentDescription`.
unfoldable pub context_attributes : Option K8sContext → List KeyValue
unfolding key_val
context_attributes none = []
context_attributes (some kc) =
    key_val (text "k8s.cluster.name") kc.cluster_name
    ∷ key_val (text "k8s.namespace") kc.namespace
    ∷ key_val (text "k8s.workload.type") kc.workload_type
    ∷ key_val (text "k8s.workload.name") kc.workload_name
    ∷ key_val (text "k8s.configmap.name") kc.config_map_name
    ∷ key_val (text "k8s.configmap.key") kc.config_map_key
    ∷ []

abbrev pub not_started : GoError
not_started = errorf (text "client not started")

abbrev pub no_components : Components
no_components = end

-- The health that is set before the connection starts.
unfoldable pub initial_health : ComponentHealth
initial_health =
    health false [] (component (text "fleet") (health false (text "initializing") end) end)

unfoldable pub pod_status : PodHealth → Text
pod_status p = text "node=" ++ (p.node ++ (text " ip=" ++ (p.ip ++ (text " phase=" ++ p.phase))))

-- One round of the loop over the pods in `SetHealth`.
unfoldable pub add_pod : Components → PodHealth → Components
unfolding pod_status
add_pod m p = set_component (text "pod/" ++ p.name) (health p.ready (pod_status p) end) m

abbrev pub is_healthy : HealthStatus → Bool
is_healthy healthy = true
is_healthy _ = false

abbrev pub count_ready : List PodHealth → ℕ
count_ready = count_if (λ p. p.ready)

-- The message that `SetHealth` sends.
unfoldable pub fleet_health : HealthStatus → List PodHealth → ComponentHealth
unfolding add_pod
fleet_health status pods =
    let ready = count_ready pods in
    let total = length pods in
    let fleet = health (is_healthy status) [] (
      component (text "total_pods") (health true (show_nat total) end)
        (component (text "ready_pods") (health (eqb ready total) (show_nat ready) end) end)) in
    health (is_healthy status) [] (foldl add_pod (component (text "fleet") fleet end) pods)

-- `emergency_ack:%v:%s`
unfoldable pub emergency_ack : Bool → Text → CustomMessage
emergency_ack success err_msg = record {
  capability = text "collectorctrl";
  type = text "emergency_ack";
  content =
      text "emergency_ack:"
      ++ ((if success then text "true" else text "false") ++ (text ":" ++ err_msg));
}

-- `fetch_logs_ack:%s:true:%s`, or `false` with the error.
unfoldable pub pod_logs_ack : Text → Text → Bool → Text → CustomMessage
pod_logs_ack pod_name logs success err_msg = record {
  capability = text "collectorctrl";
  type = text "fetch_logs_response";
  content =
      text "fetch_logs_ack:"
      ++ (pod_name ++ (if success then text ":true:" ++ logs else text ":false:" ++ err_msg));
}

unfoldable pub effective_config_of : Text → EffectiveConfig
effective_config_of cfg = ([], record { body = cfg; content_type = text "text/yaml" }) ∷ []

-- The reason and the configuration of an emergency command.
unfoldable pub emergency_parts : Text → List Text → EmergencyCommand
emergency_parts content (head ∷ body ∷ []) = record {
  config_yaml = body;
  reason = trim_space (trim_prefix head (text "emergency:"));
}
emergency_parts content _ = record { config_yaml = content; reason = text "emergency override" }

unfoldable pub emergency_command : Text → EmergencyCommand
unfolding emergency_parts
emergency_command content = emergency_parts content (split_n 2 (text "\n---\n") content)

-- Only the first file that the `range` visits is used.
first_file : {H : Type 0} → H → RemoteConfig → Assoc AgentConfigFile → List (Invocation H)
first_file h rc [] = []
first_file h rc ((name, file) ∷ _) =
    config_update h (record {
      config_yaml = file.body;
      config_hash = show_hex rc.config_hash;
      rollout_strategy = none;
    })
    ∷ []

remote_config_invocations : {H : Type 0} → Option H → Option RemoteConfig → List (Invocation H)
unfolding first_file
remote_config_invocations none rc = []
remote_config_invocations (some h) none = []
remote_config_invocations (some h) (some rc) = elim rc.config [
  | none ↦ []
  | some files ↦ first_file h rc files
]

-- `equal_fold(cm.Type, name) && handler != nil`
when_set :
    {H : Type 0} → Bool → Option H → (H → Invocation H) → List (Invocation H) → List (Invocation H)
when_set true (some h) f other = f h ∷ []
when_set true none f other = other
when_set false o f other = other

module _ {Conn H : Type 0} where
  unfoldable pub set_on_config_update : H → Client Conn H → Client Conn H
  set_on_config_update h c = record c { on_config_update = some h }

  unfoldable pub set_on_emergency_cmd : H → Client Conn H → Client Conn H
  set_on_emergency_cmd h c = record c { on_emergency_cmd = some h }

  unfoldable pub set_on_fetch_logs : H → Client Conn H → Client Conn H
  set_on_fetch_logs h c = record c { on_fetch_logs = some h }

  -- The callback `OnConnect`.
  unfoldable pub on_connect : Client Conn H → Client Conn H
  on_connect c = record c { connected = true }

  pub is_connected : Client Conn H → Bool
  is_connected c = c.connected

  -- The callback `GetEffectiveConfig`.
  unfoldable pub get_effective_config : Client Conn H → EffectiveConfig
  unfolding effective_config_of
  get_effective_config c = effective_config_of c.effective_config

  custom_message_invocations : Client Conn H → Option CustomMessage → List (Invocation H)
  unfolding when_set
  custom_message_invocations c none = []
  custom_message_invocations c (some cm) =
      if equal_fold cm.capability (text "collectorctrl")
      then (when_set (equal_fold cm.type (text "emergency")) c.on_emergency_cmd
          (λ h. emergency h (emergency_command cm.content))
          (when_set (equal_fold cm.type (text "fetch_logs")) c.on_fetch_logs
            (λ h. fetch_logs h cm.content) []))
      else []

  -- The callback `OnMessage`: the handlers that it runs, in order.
  unfoldable pub on_message : Client Conn H → MessageData → List (Invocation H)
  unfolding remote_config_invocations custom_message_invocations
  on_message c msg =
      remote_config_invocations c.on_config_update msg.remote_config
      ++ custom_message_invocations c msg.custom_message
