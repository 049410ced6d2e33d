-- ===== src/Controller/Fleet.antt =====
-- The health report and the drift check of operator/controllers/collectormonitor_controller.go.
use collectorctrl_k8s_code.Common.{
  ℕ, Bool, true, false, not, Option, none, some, List, [], ◌∷◌, ◌++◌, map, Text, text, ◌==◌, ◌&&◌,
  if◌then◌else◌, Assoc, lookup, lookup_or, inl, inr, errorf, equal_fold, show_hex, count_if, length,
  eqb, ltb,
}
use collectorctrl_k8s_code.Api.{HealthStatus, healthy, degraded, unhealthy, unknown}
use collectorctrl_k8s_code.Monitor.{CollectorMonitor, ConfigMapReference}
use collectorctrl_k8s_code.Opamp.{PodHealth}
use collectorctrl_k8s_code.Opamp.Session.{report_health, set_effective_config}
use collectorctrl_k8s_code.Controller.Cluster.{Workload, ConfigMap, Pod, PodCondition, Event}
use collectorctrl_k8s_code.Controller.Action.{
  Env, Act, pure, raise, crash, attempt, ask, in_context, read, note, call_client, update_client,
  ◌>>=◌, ◌>>◌,
}
use collectorctrl_k8s_code.Controller.Discovery.{contents_of}
use collectorctrl_k8s_code.Controller.Connection.{connection_key, or_default}

-- The loop over the conditions of a pod.
unfoldable pub has_ready_condition : List PodCondition → Bool
has_ready_condition [] = false
has_ready_condition (c ∷ cs) =
    if c.type == text "Ready" && c.status == text "True" then true else has_ready_condition cs

unfoldable pub is_pod_ready : Pod → Bool
unfolding has_ready_condition
is_pod_ready pod = has_ready_condition pod.conditions

unfoldable pub pod_health : Pod → PodHealth
pod_health pod = record {
  name = pod.name;
  node = pod.node_name;
  ip = or_default (text "Pending") pod.pod_ip;
  ready = is_pod_ready pod;
  phase = pod.phase;
}

-- The counter of the loop over the pods.
abbrev pub ready_pods : List Pod → ℕ
ready_pods = count_if is_pod_ready

unfoldable pub aggregate_health : ℕ → ℕ → HealthStatus
aggregate_health ready total =
    if eqb total 0
    then unknown
    else if eqb ready total
    then healthy
    else if ltb 0 ready
    then degraded
    else unhealthy

module _ {env : Env} where
  -- A config map that cannot be read, or has no such key, is passed over.
  unfoldable pub report_config_from : ℕ → Text → Option Text → Act env (Unit {0})
  report_config_from p key none = pure tt
  report_config_from p key (some config_yaml) =
      in_context (text "set effective config")
        (update_client p (set_effective_config env.lib config_yaml))

  unfoldable pub report_config : ℕ → Option ConfigMapReference → Act env (Unit {0})
  unfolding report_config_from
  report_config p none = pure tt
  report_config p (some ref) = do
    found ←
        attempt
          (ask (env.cluster.get_config_map (record { namespace = ref.namespace; name = ref.name })))
    elim found [
      | inl e ↦ pure tt
      | inr cm ↦ report_config_from p ref.key (lookup ref.key (contents_of cm))
    ]

  unfoldable pub report_pods : ℕ → CollectorMonitor → Option (Assoc Text) → Act env (Unit {0})
  unfolding report_config
  report_pods p monitor none = crash
  report_pods p monitor (some selector) = do
    pods ← ask (env.cluster.list_pods selector monitor.namespace)
    in_context (text "set health") (
        call_client p (
          report_health env.lib (aggregate_health (ready_pods pods) (length pods))
            (map pod_health pods)))
    report_config p monitor.status.config_map_ref

  unfoldable pub report_to : Option ℕ → CollectorMonitor → Workload → Act env (Unit {0})
  unfolding report_pods
  report_to none monitor w = pure tt
  report_to (some p) monitor w = report_pods p monitor w.selector

  unfoldable pub report_fleet_health : CollectorMonitor → Workload → Act env (Unit {0})
  unfolding report_to
  report_fleet_health monitor w = do
    found ← read (λ s. lookup (connection_key monitor.namespace monitor.name) s.opamp_clients)
    report_to found monitor w

-- The first pod of a list that is ready.
unfoldable pub first_ready : List Pod → Option Pod
first_ready [] = none
first_ready (p ∷ ps) = if is_pod_ready p then some p else first_ready ps

abbrev pub is_empty {ℓ} : {A : Type ℓ} → List A → Bool
is_empty [] = true
is_empty (x ∷ xs) = false

unfoldable pub drift_event : Text → Text → Text → Event
drift_event pod_name expected found = record {
  reason = text "ConfigDriftDetected";
  message =
      text "Config drift detected on pod "
      ++ (pod_name ++ (text ": expected hash " ++ (expected ++ (text ", got " ++ found))));
}

-- `quote` is the verb %q.
module _ {env : Env} (quote : Text → Text) where
  unfoldable pub compare_hash : CollectorMonitor → Text → Pod → Act env (Unit {0})
  compare_hash monitor expected pod =
      let found = lookup_or [] (text "collectorctrl.io/config-hash") pod.annotations in
      if found == []
      then pure tt
      else if not (equal_fold found expected)
      then note (env.cluster.record_event monitor (drift_event pod.name expected found))
      else pure tt

  unfoldable pub check_pod : CollectorMonitor → Text → Option Pod → Act env (Unit {0})
  unfolding compare_hash
  check_pod monitor expected none = raise (errorf (text "no ready pod found for drift check"))
  check_pod monitor expected (some pod) = compare_hash monitor expected pod

  unfoldable pub check_pods : CollectorMonitor → Text → Act env (Unit {0})
  unfolding check_pod
  check_pods monitor expected = do
    pods ← ask (env.cluster.list_pods monitor.spec.workload_selector.match_labels monitor.namespace)
    check_pod monitor expected (first_ready pods)

  unfoldable pub detect_in :
      CollectorMonitor → ConfigMap → Option ConfigMapReference → Act env (Unit {0})
  unfolding check_pods
  detect_in monitor cm none = crash
  detect_in monitor cm (some ref) =
      let config = lookup_or [] ref.key (contents_of cm) in
      if config == []
      then raise (errorf (text "config key " ++ (quote ref.key ++ text " not found in ConfigMap")))
      else if is_empty monitor.spec.workload_selector.match_labels
      then raise (errorf (text "no workload selector matchLabels defined"))
      else check_pods monitor (show_hex (env.cluster.sha256 config))

  unfoldable pub detect_drift : CollectorMonitor → ConfigMap → Act env (Unit {0})
  unfolding detect_in
  detect_drift monitor cm = detect_in monitor cm monitor.status.config_map_ref
