-- ===== src/Controller/Steps.antt =====
-- What `Reconcile` of operator/controllers/collectormonitor_controller.go keeps, out of what its
-- calls keep: it reads the cluster, records events, updates a status, and manages the connections.
use collectorctrl_k8s_code.Common.{
  ℕ, Bool, Option, none, some, List, [], ◌∷◌, Text, Assoc, GoError, lookup, lookup_or, ◌==◌,
  show_hex,
}
use collectorctrl_k8s_code.Monitor.{
  CollectorMonitor, ConfigMapReference, ConfigMapSelector, WorkloadSelector,
}
use collectorctrl_k8s_code.Opamp.Session.{set_effective_config}
use collectorctrl_k8s_code.Controller.Cluster.{
  Workload, WorkloadKind, ConfigMap, ObjectKey, Pod, Event,
}
use collectorctrl_k8s_code.Controller.Action.{
  Env, World, Act, ClientObject, ask, tell, note, clock, call_client, update_client,
}
use collectorctrl_k8s_code.Controller.Keeping.{
  Keeps, pure-Keeps, raise-Keeps, crash-Keeps, read-Keeps, attempt-Keeps, in_context-Keeps,
  if-Keeps, bind-Keeps, sum-Keeps,
}
use collectorctrl_k8s_code.Controller.Discovery.{
  discover_workload, discover_config_map, discover_among, named_config_map, kinds, return_or,
  contents_of,
}
use collectorctrl_k8s_code.Controller.Status.{
  set_condition, with_conditions, put_condition, new_condition,
}
use collectorctrl_k8s_code.Controller.Connection.{ensure_opamp_connection, cleanup_opamp_client}
use collectorctrl_k8s_code.Controller.Fleet.{
  report_fleet_health, detect_drift, is_empty, report_to, report_pods, report_config,
  report_config_from, detect_in, check_pods, check_pod, compare_hash, first_ready,
}

-- The calls of the cluster that only read, and the clock.
pub record KeepsReads {env : Env} (I : World env → Type 0) : Type 0 where
  pub monitor : (key : ObjectKey) → Keeps I (ask (env.cluster.get_monitor key))
  pub monitors : (ns : Text) → Keeps I (ask (env.cluster.list_monitors ns))
  pub workloads :
      (kind : WorkloadKind) (labels : Assoc Text) (ns : Text)
      → Keeps I (ask (env.cluster.list_workloads kind labels ns))
  pub config_map : (key : ObjectKey) → Keeps I (ask (env.cluster.get_config_map key))
  pub secret : (key : ObjectKey) → Keeps I (ask (env.cluster.get_secret key))
  pub pods : (labels : Assoc Text) (ns : Text) → Keeps I (ask (env.cluster.list_pods labels ns))
  pub time : Keeps I (clock {env = env})

-- Events, and calls of client objects.
pub record KeepsCalls {env : Env} (I : World env → Type 0) : Type 0 where
  pub event :
      (m : CollectorMonitor) (e : Event) → Keeps I (note {env = env} (env.cluster.record_event m e))
  pub method :
      (p : ℕ) (f : ClientObject env → env.lib.State → Option GoError × env.lib.State)
      → Keeps I (call_client p f)

-- What a reconciliation does on a monitor with a connection.
pub record KeepsReports {env : Env} (I : World env → Type 0) : Type 0 where
  pub calls : KeepsCalls I
  pub status : (m : CollectorMonitor) → Keeps I (tell (env.cluster.update_status m))
  pub config : (p : ℕ) (yaml : Text) → Keeps I (update_client p (set_effective_config env.lib yaml))

-- What `Reconcile` does.
pub record KeepsEffects {env : Env} (I : World env → Type 0) : Type 0 where
  pub reports : KeepsReports I
  pub ensure :
      (m : CollectorMonitor) (w : Workload) → Keeps I (ensure_opamp_connection {env = env} m w)
  pub cleanup : (ns name : Text) → Keeps I (cleanup_opamp_client {env = env} ns name)

module _ {env : Env} {I : World env → Type 0} (reads : KeepsReads I)
    (show_selector : WorkloadSelector → Text) where
  found-Keeps :
      (found : Option Workload) {later : Act env Workload}
      → Keeps I later
      → Keeps I (return_or later found)
  found-Keeps none k = k
  found-Keeps (some w) k = pure-Keeps w

  discover_among-Keeps :
      (m : CollectorMonitor) (ks : List WorkloadKind)
      → Keeps I (discover_among {env = env} show_selector m ks)
  unfolding discover_among
  discover_among-Keeps m [] = raise-Keeps _
  discover_among-Keeps m (k ∷ ks) =
      if-Keeps _
        (bind-Keeps (reads.workloads _ _ _) (λ l. found-Keeps _ (discover_among-Keeps m ks)))
        (discover_among-Keeps m ks)

  pub discover_workload-Keeps :
      (m : CollectorMonitor) → Keeps I (discover_workload {env = env} show_selector m)
  unfolding discover_workload
  discover_workload-Keeps m = discover_among-Keeps m kinds

module _ {env : Env} {I : World env → Type 0} (reads : KeepsReads I) where
  named_config_map-Keeps :
      (ns : Text) (selector : Option ConfigMapSelector)
      → Keeps I (named_config_map {env = env} ns selector)
  unfolding named_config_map
  named_config_map-Keeps ns none = raise-Keeps _
  named_config_map-Keeps ns (some s) = if-Keeps _ (raise-Keeps _) (reads.config_map _)

  pub discover_config_map-Keeps :
      (m : CollectorMonitor) → Keeps I (discover_config_map {env = env} m)
  unfolding discover_config_map
  discover_config_map-Keeps m = named_config_map-Keeps m.namespace m.spec.config_map_selector

  pub set_condition-Keeps :
      (ctype : Text) (status : Bool) (message : Text) (m : CollectorMonitor)
      → Keeps I (set_condition {env = env} ctype status message m)
  unfolding set_condition
  set_condition-Keeps ctype status message m =
      bind-Keeps reads.time
        (λ t. pure-Keeps (with_conditions (put_condition (new_condition ctype status message t)) m))

module _ {env : Env} {I : World env → Type 0} (reads : KeepsReads I)
    (reports : KeepsReports I) where
  report_config_from-Keeps :
      (p : ℕ) (key : Text) (yaml : Option Text)
      → Keeps I (report_config_from {env = env} p key yaml)
  unfolding report_config_from
  report_config_from-Keeps p key none = pure-Keeps tt
  report_config_from-Keeps p key (some yaml) = in_context-Keeps _ (reports.config p yaml)

  report_config-Keeps :
      (p : ℕ) (ref : Option ConfigMapReference) → Keeps I (report_config {env = env} p ref)
  unfolding report_config
  report_config-Keeps p none = pure-Keeps tt
  report_config-Keeps p (some ref) = bind-Keeps (attempt-Keeps (reads.config_map _)) (λ found.
      sum-Keeps found (λ e. pure-Keeps tt)
        (λ cm. report_config_from-Keeps p ref.key (lookup ref.key (contents_of cm))))

  report_pods-Keeps :
      (p : ℕ) (m : CollectorMonitor) (selector : Option (Assoc Text))
      → Keeps I (report_pods {env = env} p m selector)
  unfolding report_pods
  report_pods-Keeps p m none = crash-Keeps
  report_pods-Keeps p m (some selector) = bind-Keeps (reads.pods selector m.namespace) λ pods.
      bind-Keeps (in_context-Keeps _ (reports.calls.method p _))
        λ _. report_config-Keeps p m.status.config_map_ref

  report_to-Keeps :
      (p : Option ℕ) (m : CollectorMonitor) (w : Workload) → Keeps I (report_to {env = env} p m w)
  unfolding report_to
  report_to-Keeps none m w = pure-Keeps tt
  report_to-Keeps (some p) m w = report_pods-Keeps p m w.selector

  pub report_fleet_health-Keeps :
      (m : CollectorMonitor) (w : Workload) → Keeps I (report_fleet_health {env = env} m w)
  unfolding report_fleet_health
  report_fleet_health-Keeps m w = bind-Keeps (read-Keeps _) (λ p. report_to-Keeps p m w)

  compare_hash-Keeps :
      (quote : Text → Text) (m : CollectorMonitor) (expected : Text) (pod : Pod)
      → Keeps I (compare_hash {env = env} quote m expected pod)
  unfolding compare_hash
  compare_hash-Keeps quote m expected pod =
      if-Keeps _ (pure-Keeps tt) (if-Keeps _ (reports.calls.event m _) (pure-Keeps tt))

  check_pod-Keeps :
      (quote : Text → Text) (m : CollectorMonitor) (expected : Text) (found : Option Pod)
      → Keeps I (check_pod {env = env} quote m expected found)
  unfolding check_pod
  check_pod-Keeps quote m expected none = raise-Keeps _
  check_pod-Keeps quote m expected (some pod) = compare_hash-Keeps quote m expected pod

  detect_in-Keeps :
      (quote : Text → Text) (m : CollectorMonitor) (cm : ConfigMap)
      (ref : Option ConfigMapReference)
      → Keeps I (detect_in {env = env} quote m cm ref)
  unfolding detect_in check_pods
  detect_in-Keeps quote m cm none = crash-Keeps
  detect_in-Keeps quote m cm (some ref) =
      let config = lookup_or [] ref.key (contents_of cm) in
      if-Keeps (config == []) (raise-Keeps _) (
        if-Keeps (is_empty m.spec.workload_selector.match_labels) (raise-Keeps _) (
          bind-Keeps (reads.pods m.spec.workload_selector.match_labels m.namespace) (λ pods.
            check_pod-Keeps quote m (show_hex (env.cluster.sha256 config)) (first_ready pods))))

  pub detect_drift-Keeps :
      (quote : Text → Text) (m : CollectorMonitor) (cm : ConfigMap)
      → Keeps I (detect_drift {env = env} quote m cm)
  unfolding detect_drift
  detect_drift-Keeps quote m cm = detect_in-Keeps quote m cm m.status.config_map_ref
