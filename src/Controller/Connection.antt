-- ===== src/Controller/Connection.antt =====
-- One OpAMP connection for each monitor: `ensureOpAMPConnection` and `cleanupOpAMPClient` of
-- operator/controllers/collectormonitor_controller.go. The mutex makes each of them one action.
use collectorctrl_k8s_code.Common.{
  ℕ, true, false, Option, none, some, [], ◌∷◌, ◌++◌, Text, text, ◌==◌, if◌then◌else◌, Assoc, lookup,
  lookup_or, insert, remove, length,
}
use collectorctrl_k8s_code.Api.{kubernetes}
use collectorctrl_k8s_code.Monitor.{CollectorMonitor, ConfigMapReference, SecretRef}
use collectorctrl_k8s_code.Opamp.{
  ClientConfig, new_client, set_on_config_update, set_on_emergency_cmd, set_on_fetch_logs,
}
use collectorctrl_k8s_code.Opamp.Session.{start_client, stop_client}
use collectorctrl_k8s_code.Controller.Cluster.{Workload, kind_name}
use collectorctrl_k8s_code.Controller.Action.{
  Env, Act, ClientObject, Captured, pure, crash, ask, in_context, read, modify, allocate,
  update_client, call_client, ◌>>=◌, ◌>>◌,
}

-- `fmt.Sprintf("%s/%s", ns, name)`
unfoldable pub connection_key : Text → Text → Text
connection_key namespace name = namespace ++ (text "/" ++ name)

unfoldable pub cluster_name : Option (Assoc Text) → Text
cluster_name none = text "unknown"
cluster_name (some labels) = lookup_or (text "unknown") (text "k8s.cluster.name") labels

-- `k8s://<cluster>/<namespace>/<kind>/<name>`
unfoldable pub agent_id : Text → Text → Workload → Text
agent_id cluster namespace w =
    text "k8s://"
    ++ (cluster
        ++ (text "/" ++ (namespace ++ (text "/" ++ (kind_name w.kind ++ (text "/" ++ w.name))))))

unfoldable pub client_config :
    CollectorMonitor → Workload → ConfigMapReference → Assoc Text → ClientConfig
unfolding agent_id cluster_name
client_config monitor w ref headers =
    let cluster = cluster_name monitor.labels in
    record {
      endpoint = monitor.spec.opamp_server;
      headers = headers;
      tls_config = some (record { insecure_skip_verify = true });
      agent_id = agent_id cluster monitor.namespace w;
      agent_type = kubernetes;
      labels =
          (text "k8s.cluster.name", cluster)
          ∷ (text "k8s.namespace", monitor.namespace)
          ∷ (text "k8s.workload.type", kind_name w.kind)
          ∷ (text "k8s.workload.name", w.name)
          ∷ [];
      k8s_context = some (record {
        cluster_name = cluster;
        cluster_id = [];
        namespace = monitor.namespace;
        node_name = [];
        pod_name = [];
        pod_uid = [];
        workload_type = kind_name w.kind;
        workload_name = w.name;
        container_name = [];
        git_commit = [];
        git_repo = [];
        config_map_name = ref.name;
        config_map_key = ref.key;
      });
    }

-- `Authorization: Secret-Key <secret>`
unfoldable pub secret_header : Text → Assoc Text
secret_header secret = (text "Authorization", text "Secret-Key " ++ secret) ∷ []

-- The value, or a default where it is empty.
abbrev pub or_default : Text → Text → Text
or_default fallback [] = fallback
or_default fallback (c ∷ s) = c ∷ s

-- The client object with its three handlers.
unfoldable pub equipped : (env : Env) → ClientConfig → Captured → ClientObject env
equipped env cfg captured = set_on_fetch_logs captured (
    set_on_emergency_cmd captured
      (set_on_config_update captured (new_client env.lib.Conn Captured cfg)))

module _ {env : Env} where
  unfoldable pub auth_headers : CollectorMonitor → Option SecretRef → Act env (Assoc Text)
  auth_headers monitor (some ref) = do
    secret ← in_context (text "failed to load auth secret") (
        ask (
          env.cluster.get_secret
            (record { namespace = or_default monitor.namespace ref.namespace; name = ref.name })))
    pure (secret_header (lookup_or [] (or_default (text "secret-key") ref.key) secret))
  auth_headers monitor none = do
    secret ← read (λ w. w.default_secret_key)
    pure (if secret == [] then [] else secret_header secret)

  -- `NewClient`, the handlers and `Start`; the maps are written after a `Start` with no error.
  unfoldable pub connect : Text → CollectorMonitor → ClientConfig → Act env (Unit {0})
  unfolding equipped
  connect key monitor cfg = do
    p ← read (λ w. length w.store)
    allocate (equipped env cfg (record { monitor = monitor; client = p }))
    update_client p (start_client env.lib)
    modify (λ w. record w {
      opamp_clients = insert key p w.opamp_clients;
      opamp_started = insert key true w.opamp_started;
    })

  unfoldable pub connect_new :
      Text → CollectorMonitor → Workload → Option ConfigMapReference → Act env (Unit {0})
  unfolding auth_headers connect
  connect_new key monitor w none = crash
  connect_new key monitor w (some ref) = do
    headers ← auth_headers monitor monitor.spec.auth.secret_ref
    connect key monitor (client_config monitor w ref headers)

  unfoldable pub ensure_at : Text → CollectorMonitor → Workload → Act env (Unit {0})
  unfolding connect_new
  ensure_at key monitor w = do
    started ← read (λ s. lookup_or false key s.opamp_started)
    if started then pure tt else connect_new key monitor w monitor.status.config_map_ref

  unfoldable pub ensure_opamp_connection : CollectorMonitor → Workload → Act env (Unit {0})
  unfolding ensure_at
  ensure_opamp_connection monitor w =
      ensure_at (connection_key monitor.namespace monitor.name) monitor w

  unfoldable pub stop_and_forget : Text → Option ℕ → Act env (Unit {0})
  stop_and_forget key none = pure tt
  stop_and_forget key (some p) = do
    call_client p (λ c s. (none, stop_client env.lib c s))
    modify (λ w. record w { opamp_clients = remove key w.opamp_clients })

  unfoldable pub cleanup_at : Text → Act env (Unit {0})
  unfolding stop_and_forget
  cleanup_at key = do
    found ← read (λ w. lookup key w.opamp_clients)
    stop_and_forget key found
    modify (λ w. record w { opamp_started = remove key w.opamp_started })

  unfoldable pub cleanup_opamp_client : Text → Text → Act env (Unit {0})
  unfolding cleanup_at
  cleanup_opamp_client namespace name = cleanup_at (connection_key namespace name)
