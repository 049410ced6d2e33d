-- ===== src/Controller/Reconcile.antt =====
-- `Reconcile` and the watch of config maps, in
-- operator/controllers/collectormonitor_controller.go.
use collectorctrl_k8s_code.Common.{
  ℕ, Bool, true, false, Option, none, some, List, [], ◌∷◌, Text, text, ◌==◌, if◌then◌else◌, ◌⊎◌,
  inl, inr, GoError,
}
use collectorctrl_k8s_code.Monitor.{
  CollectorMonitor, ConfigMapReference, ConfigMapSelector, WorkloadSelector,
}
use collectorctrl_k8s_code.Controller.Cluster.{Workload, ConfigMap, ObjectKey}
use collectorctrl_k8s_code.Controller.Action.{
  Env, Act, pure, raise, attempt, ask, tell, ◌>>=◌, ◌>>◌,
}
use collectorctrl_k8s_code.Controller.Discovery.{
  discover_workload, discover_config_map, config_map_key,
}
use collectorctrl_k8s_code.Controller.Status.{set_condition}
use collectorctrl_k8s_code.Controller.Connection.{ensure_opamp_connection, cleanup_opamp_client}
use collectorctrl_k8s_code.Controller.Fleet.{report_fleet_health, detect_drift}

-- ctrl.Result, its delay in seconds; no delay is 0.
pub record ReconcileResult : Type 0 where
  pub requeue_after : ℕ

abbrev pub after : ℕ → ReconcileResult
after seconds = record { requeue_after = seconds }

unfoldable pub reference_to : CollectorMonitor → ConfigMap → ConfigMapReference
reference_to monitor cm = record {
  name = cm.name;
  namespace = cm.namespace;
  key = config_map_key monitor cm;
}

abbrev pub with_reference : CollectorMonitor → ConfigMap → CollectorMonitor
with_reference monitor cm = record monitor {
  status = record monitor.status { config_map_ref = some (reference_to monitor cm) };
}

abbrev pub with_phase : Text → CollectorMonitor → CollectorMonitor
with_phase phase monitor = record monitor { status = record monitor.status { phase = phase } }

abbrev pub is_enabled : Option Bool → Bool
is_enabled none = false
is_enabled (some b) = b

module _ {env : Env} (show_selector : WorkloadSelector → Text) (quote : Text → Text) where
  -- Step 7.
  unfoldable pub check_drift : CollectorMonitor → ConfigMap → Act env (GoError ⊎ Unit {0})
  check_drift monitor cm =
      if is_enabled monitor.spec.drift_detection.enabled
      then attempt (detect_drift quote monitor cm)
      else pure (inr tt)

  -- Steps 6 to 8, on a monitor with a connection. Errors of the report and of the drift check are
  -- logged and dropped.
  unfoldable pub report_and_update :
      CollectorMonitor → Workload → ConfigMap → Act env ReconcileResult
  unfolding check_drift
  report_and_update monitor w cm = do
    attempt (report_fleet_health monitor w)
    check_drift monitor cm
    active ←
        set_condition (text "Active") true (text "Monitoring collector fleet")
          (with_phase (text "Active") monitor)
    tell (env.cluster.update_status active)
    pure (after 60)

  -- The condition is set on the object in memory, and the reconciliation ends.
  unfoldable pub give_up : Text → ℕ → CollectorMonitor → GoError → Act env ReconcileResult
  give_up ctype seconds monitor e = do
    set_condition ctype false e.message monitor
    pure (after seconds)

  unfoldable pub connect_and_report :
      CollectorMonitor → Workload → ConfigMap → Act env ReconcileResult
  unfolding report_and_update give_up
  connect_and_report monitor w cm = do
    connected ← attempt (ensure_opamp_connection monitor w)
    elim connected [
      | inl e ↦ give_up (text "OpAMPConnected") 10 monitor e
      | inr _ ↦ report_and_update monitor w cm
    ]

  unfoldable pub with_workload : CollectorMonitor → Workload → Act env ReconcileResult
  unfolding connect_and_report
  with_workload monitor w = do
    found ← attempt (discover_config_map monitor)
    elim found [
      | inl e ↦ give_up (text "ConfigMapResolved") 30 monitor e
      | inr cm ↦ connect_and_report (with_reference monitor cm) w cm
    ]

  unfoldable pub reconcile_monitor : CollectorMonitor → Act env ReconcileResult
  unfolding with_workload
  reconcile_monitor monitor = do
    found ← attempt (discover_workload show_selector monitor)
    elim found [
      | inl e ↦ give_up (text "Discovered") 30 monitor e
      | inr w ↦ with_workload monitor w
    ]

  -- The error of the `Get`.
  unfoldable pub monitor_gone : ObjectKey → GoError → Act env ReconcileResult
  monitor_gone req e =
      if e.is_not_found
      then cleanup_opamp_client req.namespace req.name >>= (λ _. pure (after 0))
      else raise e

  unfoldable pub reconcile : ObjectKey → Act env ReconcileResult
  unfolding reconcile_monitor monitor_gone
  reconcile req = do
    found ← attempt (ask (env.cluster.get_monitor req))
    elim found [ inl e ↦ monitor_gone req e | inr monitor ↦ reconcile_monitor monitor ]

abbrev pub names_ref : Option ConfigMapReference → Text → Bool
names_ref none name = false
names_ref (some ref) name = ref.name == name

abbrev pub names_selector : Option ConfigMapSelector → Text → Bool
names_selector none name = false
names_selector (some selector) name = selector.name == name

abbrev pub request_of : CollectorMonitor → ObjectKey
request_of m = record { namespace = m.namespace; name = m.name }

-- The loop of `mapConfigMapToMonitors`.
unfoldable pub requests_for : Text → List CollectorMonitor → List ObjectKey
requests_for name [] = []
requests_for name (m ∷ ms) =
    let rest = requests_for name ms in
    if names_ref m.status.config_map_ref name
    then request_of m ∷ rest
    else if names_selector m.spec.config_map_selector name
    then request_of m ∷ rest
    else rest

module _ {env : Env} where
  -- The watched object is a config map; of another object the source makes no request.
  unfoldable pub map_config_map_to_monitors : ConfigMap → Act env (List ObjectKey)
  map_config_map_to_monitors cm = do
    found ← attempt (ask (env.cluster.list_monitors cm.namespace))
    elim found [ inl e ↦ pure [] | inr monitors ↦ pure (requests_for cm.name monitors) ]
