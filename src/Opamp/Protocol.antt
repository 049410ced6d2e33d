-- ===== src/Opamp/Protocol.antt =====
-- The messages that pkg/opamp/client.go exchanges with the opamp-go library, as far as it fills or
-- reads them, and that library as an interface.
use collectorctrl_k8s_code.Common.{ℕ, Bool, Option, List, Text, Assoc, GoError, ◌==◌, if◌then◌else◌}

-- protobufs.ComponentHealth, with its map of components.
mutual
  pub data ComponentHealth : Type 0 where
    health : Bool → Text → Components → ComponentHealth

  pub data Components : Type 0 where
    end : Components
    component : Text → ComponentHealth → Components → Components

-- `m[k] = v`
unfoldable pub set_component : Text → ComponentHealth → Components → Components
unfolding ◌==◌
set_component k v end = component k v end
set_component k v (component j w m) =
    let rest = set_component k v m in if j == k then component j v m else component j w rest

pub record KeyValue : Type 0 where
  pub key : Text
  pub value : Text

pub record AgentDescription : Type 0 where
  pub identifying_attributes : List KeyValue
  pub non_identifying_attributes : List KeyValue

pub record AgentConfigFile : Type 0 where
  pub body : Text
  pub content_type : Text

abbrev pub EffectiveConfig : Type 0
EffectiveConfig = Assoc AgentConfigFile

pub record CustomMessage : Type 0 where
  pub capability : Text
  pub type : Text
  pub content : Text

pub record RemoteConfig : Type 0 where
  pub config : Option (Assoc AgentConfigFile)
  pub config_hash : List ℕ

pub record MessageData : Type 0 where
  pub remote_config : Option RemoteConfig
  pub custom_message : Option CustomMessage

pub data Capability : Type 0 where
  reports_health reports_effective_config reports_status accepts_restart_command
        accepts_remote_config :
      Capability

pub record TlsConfig : Type 0 where
  pub insecure_skip_verify : Bool

pub record StartSettings : Type 0 where
  pub server_url : Text
  pub tls_config : Option TlsConfig
  pub instance_uid : List ℕ
  pub header : Assoc Text
  pub capabilities : List Capability

-- The calls of an opamp-go client. `update_effective_config` asks back for the configuration by a
-- callback; what the callback returns at that moment is put into the call.
pub data Call : Type 0 where
  set_agent_description : AgentDescription → Call
  set_health : ComponentHealth → Call
  start : StartSettings → Call
  stop : Call
  update_effective_config : EffectiveConfig → Call
  send_custom_message : CustomMessage → Call

-- opamp-go, MD5, and the order in which Go visits a map of labels.
pub record OpampLib : Type 1 where
  pub State : Type 0
  pub Conn : Type 0
  pub new_web_socket : State → Conn × State
  pub perform : Conn → Call → State → Option GoError × State
  pub md5 : Text → List ℕ
  pub range_order : Assoc Text → Assoc Text
