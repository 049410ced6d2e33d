-- ===== src/Opamp/Session.antt =====
-- The methods of pkg/opamp/client.go that call opamp-go.
use collectorctrl_k8s_code.Common.{
  ℕ, ◌+◌, ◌-◌, Bool, true, Option, none, some, List, [], ◌∷◌, ◌++◌, map, Text, text, leb, eqb,
  if◌then◌else◌, not, ◌&&◌, ◌||◌, Assoc, insert, GoError, wrapf,
}
use collectorctrl_k8s_code.Api.{agent_type_name, HealthStatus}
use collectorctrl_k8s_code.Opamp.Protocol.{
  AgentDescription, Capability, reports_health, reports_effective_config, reports_status,
  accepts_restart_command, accepts_remote_config, StartSettings, Call, set_agent_description,
  set_health, start, stop, update_effective_config, send_custom_message, OpampLib,
}
use collectorctrl_k8s_code.Opamp.{
  ClientConfig, Client, PodHealth, key_val, context_attributes, not_started, initial_health,
  fleet_health, emergency_ack, pod_logs_ack, get_effective_config,
}

abbrev pub is_upper : ℕ → Bool
is_upper c = leb b'A' c && leb c b'Z'

abbrev pub is_lower : ℕ → Bool
is_lower c = leb b'a' c && leb c b'z'

-- The bytes that may stand in a header's name: `!#$%&'*+-.^_`|~`, letters and digits.
is_token : ℕ → Bool
is_token c =
    is_upper c
    || is_lower c
    || (leb b'0' c && leb c b'9')
    || eqb c 33
    || (leb 35 c && leb c 39)
    || eqb c 42
    || eqb c 43
    || eqb c 45
    || eqb c 46
    || eqb c 94
    || eqb c 95
    || eqb c 96
    || eqb c 124
    || eqb c 126

all_token : Text → Bool
unfolding is_token
all_token [] = true
all_token (c ∷ s) = is_token c && all_token s

-- Upper case at the start and behind a dash, lower case elsewhere.
canonical_from : Bool → Text → Text
canonical_from upper [] = []
canonical_from upper (c ∷ s) =
    let rest = canonical_from (eqb c b'-') s in
    if upper && is_lower c
    then (c - 32) ∷ rest
    else if not upper && is_upper c
    then (c + 32) ∷ rest
    else c ∷ rest

-- textproto.CanonicalMIMEHeaderKey
unfoldable pub canonical_header_key : Text → Text
unfolding all_token canonical_from
canonical_header_key k = if all_token k then canonical_from true k else k

-- `for k, v := range headers { header.Set(k, v) }`
set_headers : Assoc Text → Assoc Text → Assoc Text
set_headers header [] = header
set_headers header ((k, v) ∷ l) = set_headers (insert (canonical_header_key k) v header) l

unfoldable pub http_header : Assoc Text → Assoc Text
unfolding set_headers
http_header headers = set_headers [] headers

abbrev pub capabilities : List Capability
capabilities =
    reports_health ∷ reports_effective_config ∷ reports_status ∷ accepts_restart_command
    ∷ accepts_remote_config ∷ []

-- A method returns its error, the client object and the state of opamp-go.
abbrev pub Returned : OpampLib → Type 0 → Type 0
Returned lib H = Option GoError × Client lib.Conn H × lib.State

module _ (lib : OpampLib) where
  -- The 16 bytes of the digest.
  unfoldable pub instance_uid : ClientConfig → List ℕ
  instance_uid cfg = lib.md5 cfg.agent_id

  unfoldable pub agent_description : ClientConfig → AgentDescription
  agent_description cfg = record {
    identifying_attributes =
        key_val (text "service.name") (agent_type_name cfg.agent_type)
        ∷ key_val (text "service.instance.id") cfg.agent_id
        ∷ [];
    non_identifying_attributes =
        map (λ kv. key_val kv.0 kv.1) (lib.range_order cfg.labels)
        ++ context_attributes cfg.k8s_context;
  }

  unfoldable pub start_settings : ClientConfig → Assoc Text → StartSettings
  start_settings cfg header = record {
    server_url = cfg.endpoint;
    tls_config = cfg.tls_config;
    instance_uid = instance_uid cfg;
    header = header;
    capabilities = capabilities;
  }

  abbrev pub finish_call : Text → Option GoError × lib.State → Option GoError × lib.State
  finish_call context (none, s) = (none, s)
  finish_call context (some e, s) = (some (wrapf context e), s)

  -- `if err := call; err != nil { return fmt.Errorf("<context>: %w", err) }`, and the calls behind.
  abbrev pub then_call :
      Text
      → Option GoError × lib.State
      → (lib.State → Option GoError × lib.State)
      → Option GoError × lib.State
  then_call context (none, s) k = k s
  then_call context (some e, s) k = (some (wrapf context e), s)

  -- The three calls of `Start` on a new connection.
  unfoldable pub handshake : ClientConfig → lib.Conn → lib.State → Option GoError × lib.State
  handshake cfg conn s =
      then_call (text "set agent description")
        (lib.perform conn (set_agent_description (agent_description cfg)) s)
        λ s1.
          then_call (text "set initial health") (lib.perform conn (set_health initial_health) s1)
            λ s2.
              finish_call (text "opamp start")
                (lib.perform conn (start (start_settings cfg (http_header cfg.headers))) s2)

  stop_conn : Option lib.Conn → lib.State → lib.State
  stop_conn none s = s
  stop_conn (some conn) s = (lib.perform conn stop s).1

  call_if_started : Option lib.Conn → Call → lib.State → Option GoError × lib.State
  call_if_started none call s = (some not_started, s)
  call_if_started (some conn) call s = lib.perform conn call s

  module _ {H : Type 0} where
    -- `Start`: the connection object is stored before the first call.
    unfoldable pub start_client : Client lib.Conn H → lib.State → Returned lib H
    unfolding handshake
    start_client c s =
        let (conn, s0) = lib.new_web_socket s in
        let (e, s') = handshake c.config conn s0 in (e, record c { client = some conn }, s')

    -- `Stop`; its error is dropped.
    unfoldable pub stop_client : Client lib.Conn H → lib.State → lib.State
    unfolding stop_conn
    stop_client c s = stop_conn c.client s

    unfoldable pub report_health :
        HealthStatus → List PodHealth → Client lib.Conn H → lib.State → Option GoError × lib.State
    unfolding call_if_started
    report_health status pods c s =
        call_if_started c.client (set_health (fleet_health status pods)) s

    unfoldable pub store_config :
        Text → Option lib.Conn → Client lib.Conn H → lib.State → Returned lib H
    store_config config_yaml none c s = (some not_started, c, s)
    store_config config_yaml (some conn) c s =
        let c' = record c { effective_config = config_yaml } in
        let (e, s') = lib.perform conn (update_effective_config (get_effective_config c')) s in
        (e, c', s')

    unfoldable pub set_effective_config : Text → Client lib.Conn H → lib.State → Returned lib H
    unfolding store_config
    set_effective_config config_yaml c s = store_config config_yaml c.client c s

    unfoldable pub send_emergency_ack :
        Bool → Text → Client lib.Conn H → lib.State → Option GoError × lib.State
    unfolding call_if_started
    send_emergency_ack success err_msg c s =
        call_if_started c.client (send_custom_message (emergency_ack success err_msg)) s

    unfoldable pub send_pod_logs :
        Text → Text → Bool → Text → Client lib.Conn H → lib.State → Option GoError × lib.State
    unfolding call_if_started
    send_pod_logs pod_name logs success err_msg c s =
        call_if_started c.client (send_custom_message (pod_logs_ack pod_name logs success err_msg))
          s
