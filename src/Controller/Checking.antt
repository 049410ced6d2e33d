-- ===== src/Controller/Checking.antt =====
-- The opening of a connection and the drift check of
-- operator/controllers/collectormonitor_controller.go come to an end.
use collectorctrl_k8s_code.Controller.Ending.{
  Always, Ends, EndsWell, OnSuccess, ask-Ends, attempt-Ends, bind-Ends, if-Ends, in_context-Ends,
  note-Ends, pure-Ends, raise-Ends, read-Ends,
}
use collectorctrl_k8s_code.Controller.Connected.{IsOrderly, IsOrderly-reads, auth_headers-Keeps}
use collectorctrl_k8s_code.Controller.Reconcile.{check_drift, is_enabled}
use collectorctrl_k8s_code.Common.{
  inr, Option, none, some, [], ◌≢◌, refl, sym, subst, Text, GoError, lookup_or, ◌==◌, text, not,
  equal_fold, show_hex,
}
use collectorctrl_k8s_code.Monitor.{
  WorkloadSelector, CollectorMonitor, ConfigMapReference, SecretRef,
}
use collectorctrl_k8s_code.Opamp.{ClientConfig}
use collectorctrl_k8s_code.Opamp.Session.{start_client}
use collectorctrl_k8s_code.Controller.Cluster.{Workload, ConfigMap, Pod}
use collectorctrl_k8s_code.Controller.Action.{Env, World, ClientObject}
use collectorctrl_k8s_code.Controller.Connection.{
  connection_key, connect, connect_new, ensure_at, ensure_opamp_connection, auth_headers,
  client_config,
}
use collectorctrl_k8s_code.Controller.Connecting.{connect-run, started_world, new_client_at}
use collectorctrl_k8s_code.Controller.Keeping.{read-Keeps, in_context-Keeps}
use collectorctrl_k8s_code.Controller.Steps.{KeepsReads}
use collectorctrl_k8s_code.Controller.Discovery.{contents_of}
use collectorctrl_k8s_code.Controller.Fleet.{
  detect_drift, drift_event, is_empty, detect_in, check_pods, check_pod, compare_hash, first_ready,
}

module _ {env : Env} where
  started_world-EndsWell :
      (key : Text) (e : Option GoError) (c : ClientObject env) (s : env.lib.State) (w : World env)
      → EndsWell Always Always (started_world key e c s w).0
  started_world-EndsWell key none c s w = tt
  started_world-EndsWell key (some e) c s w = tt

module _ {env : Env} {I : World env → Type 0} where
  connect-Ends :
      (key : Text) (m : CollectorMonitor) (cfg : ClientConfig)
      → Ends I Always Always (connect {env = env} key m cfg)
  connect-Ends key m cfg = record {
    ends = λ w _.
        let (e, c, s) = start_client env.lib (new_client_at m cfg w) w.lib in
        subst (λ r. EndsWell Always Always r.0) (sym (connect-run key m cfg w))
          (started_world-EndsWell key e c s w);
  }

module _ {env : Env} {I : World env → Type 0} (reads : KeepsReads I) where
  auth_headers-Ends :
      (m : CollectorMonitor) (ref : Option SecretRef)
      → Ends I Always Always (auth_headers {env = env} m ref)
  unfolding auth_headers
  auth_headers-Ends m none = record { ends = λ w _. tt }
  auth_headers-Ends m (some ref) =
      bind-Ends (in_context-Keeps _ (reads.secret _)) (in_context-Ends _ (ask-Ends _))
        λ secret _. pure-Ends _ tt

  connect_new-Ends :
      (key : Text) (m : CollectorMonitor) (wl : Workload) (ref : Option ConfigMapReference)
      → ref ≢ none
      → Ends I Always Always (connect_new {env = env} key m wl ref)
  unfolding connect_new
  connect_new-Ends key m wl none h = absurd (h refl)
  connect_new-Ends key m wl (some ref) h =
      bind-Ends (auth_headers-Keeps reads m m.spec.auth.secret_ref)
        (auth_headers-Ends m m.spec.auth.secret_ref)
        λ headers _. connect-Ends key m (client_config m wl ref headers)

  pub ensure-Ends :
      (m : CollectorMonitor) (wl : Workload)
      → m.status.config_map_ref ≢ none
      → Ends I Always Always (ensure_opamp_connection {env = env} m wl)
  unfolding ensure_opamp_connection ensure_at
  ensure-Ends m wl h = bind-Ends (read-Keeps _) (read-Ends _) λ started _.
      if-Ends started (pure-Ends tt tt)
        (connect_new-Ends (connection_key m.namespace m.name) m wl m.status.config_map_ref h)

  compare_hash-Ends :
      (quote : Text → Text) (m : CollectorMonitor) (expected : Text) (pod : Pod)
      → Ends I Always Always (compare_hash {env = env} quote m expected pod)
  unfolding compare_hash
  compare_hash-Ends quote m expected pod =
      let found = lookup_or [] (text "collectorctrl.io/config-hash") pod.annotations in
      let event = env.cluster.record_event m (drift_event pod.name expected found) in
      if-Ends (found == []) (pure-Ends tt tt)
        (if-Ends (not (equal_fold found expected)) (note-Ends event) (pure-Ends tt tt))

  check_pod-Ends :
      (quote : Text → Text) (m : CollectorMonitor) (expected : Text) (found : Option Pod)
      → Ends I Always Always (check_pod {env = env} quote m expected found)
  unfolding check_pod
  check_pod-Ends quote m expected none = raise-Ends _ tt
  check_pod-Ends quote m expected (some pod) = compare_hash-Ends quote m expected pod

  detect_in-Ends :
      (quote : Text → Text) (m : CollectorMonitor) (cm : ConfigMap)
      (ref : Option ConfigMapReference)
      → ref ≢ none
      → Ends I Always Always (detect_in {env = env} quote m cm ref)
  unfolding detect_in check_pods
  detect_in-Ends quote m cm none h = absurd (h refl)
  detect_in-Ends quote m cm (some ref) h =
      let config = lookup_or [] ref.key (contents_of cm) in
      if-Ends (config == []) (raise-Ends _ tt) (
        if-Ends (is_empty m.spec.workload_selector.match_labels) (raise-Ends _ tt) (
          bind-Ends (reads.pods m.spec.workload_selector.match_labels m.namespace) (ask-Ends _)
            (λ pods _.
              check_pod-Ends quote m (show_hex (env.cluster.sha256 config)) (first_ready pods))))

  pub detect_drift-Ends :
      (quote : Text → Text) (m : CollectorMonitor) (cm : ConfigMap)
      → m.status.config_map_ref ≢ none
      → Ends I Always Always (detect_drift {env = env} quote m cm)
  unfolding detect_drift
  detect_drift-Ends quote m cm h = detect_in-Ends quote m cm m.status.config_map_ref h

module _ {env : Env} {E : GoError → Type 0} (show_selector : WorkloadSelector → Text)
    (quote : Text → Text) where
  pub check_drift-Ends :
      (m : CollectorMonitor) (cm : ConfigMap)
      → m.status.config_map_ref ≢ none
      → Ends IsOrderly E (OnSuccess Always) (check_drift {env = env} show_selector quote m cm)
  unfolding check_drift
  check_drift-Ends m cm h =
      if-Ends (is_enabled m.spec.drift_detection.enabled)
        (attempt-Ends (detect_drift-Ends IsOrderly-reads quote m cm h)) (pure-Ends (inr tt) tt)
