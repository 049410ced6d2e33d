-- ===== src/Controller/Paths.antt =====
-- What `Reconcile` of operator/controllers/collectormonitor_controller.go keeps, on all its paths.
use collectorctrl_k8s_code.Common.{ℕ, false, Text, text, GoError}
use collectorctrl_k8s_code.Monitor.{CollectorMonitor, WorkloadSelector}
use collectorctrl_k8s_code.Controller.Cluster.{Workload, ConfigMap, ObjectKey}
use collectorctrl_k8s_code.Controller.Action.{Env, World}
use collectorctrl_k8s_code.Controller.Keeping.{
  Keeps, pure-Keeps, raise-Keeps, attempt-Keeps, if-Keeps, bind-Keeps, sum-Keeps,
}
use collectorctrl_k8s_code.Controller.Steps.{
  KeepsReads, KeepsReports, KeepsEffects, discover_workload-Keeps, discover_config_map-Keeps,
  set_condition-Keeps, report_fleet_health-Keeps, detect_drift-Keeps,
}
use collectorctrl_k8s_code.Controller.Reconcile.{
  reconcile, monitor_gone, check_drift, report_and_update, give_up, connect_and_report,
  with_workload, reconcile_monitor, with_phase, with_reference, after,
}

module _ {env : Env} {I : World env → Type 0} (reads : KeepsReads I)
    (show_selector : WorkloadSelector → Text) (quote : Text → Text) where
  pub give_up-Keeps :
      (ctype : Text) (seconds : ℕ) (m : CollectorMonitor) (e : GoError)
      → Keeps I (give_up {env = env} show_selector quote ctype seconds m e)
  unfolding give_up
  give_up-Keeps ctype seconds m e =
      bind-Keeps (set_condition-Keeps reads ctype false e.message m) λ _. pure-Keeps (after seconds)

module _ {env : Env} {I : World env → Type 0} (reads : KeepsReads I) (reports : KeepsReports I)
    (show_selector : WorkloadSelector → Text) (quote : Text → Text) where
  pub check_drift-Keeps :
      (m : CollectorMonitor) (cm : ConfigMap)
      → Keeps I (check_drift {env = env} show_selector quote m cm)
  unfolding check_drift
  check_drift-Keeps m cm =
      if-Keeps _ (attempt-Keeps (detect_drift-Keeps reads reports quote m cm)) (pure-Keeps _)

  pub report_and_update-Keeps :
      (m : CollectorMonitor) (w : Workload) (cm : ConfigMap)
      → Keeps I (report_and_update {env = env} show_selector quote m w cm)
  unfolding report_and_update
  report_and_update-Keeps m w cm =
      bind-Keeps (attempt-Keeps (report_fleet_health-Keeps reads reports m w)) λ _.
        bind-Keeps (check_drift-Keeps m cm) λ _.
          bind-Keeps (set_condition-Keeps reads _ _ _ (with_phase (text "Active") m))
            λ active. bind-Keeps (reports.status active) λ _. pure-Keeps (after 60)

module _ {env : Env} {I : World env → Type 0} (reads : KeepsReads I) (effects : KeepsEffects I)
    (show_selector : WorkloadSelector → Text) (quote : Text → Text) where
  connect_and_report-Keeps :
      (m : CollectorMonitor) (w : Workload) (cm : ConfigMap)
      → Keeps I (connect_and_report {env = env} show_selector quote m w cm)
  unfolding connect_and_report
  connect_and_report-Keeps m w cm = bind-Keeps (attempt-Keeps (effects.ensure m w)) λ connected.
      sum-Keeps connected (λ e. give_up-Keeps reads show_selector quote _ 10 m e)
        (λ _. report_and_update-Keeps reads effects.reports show_selector quote m w cm)

  with_workload-Keeps :
      (m : CollectorMonitor) (w : Workload)
      → Keeps I (with_workload {env = env} show_selector quote m w)
  unfolding with_workload
  with_workload-Keeps m w = bind-Keeps (attempt-Keeps (discover_config_map-Keeps reads m)) λ found.
      sum-Keeps found (λ e. give_up-Keeps reads show_selector quote _ 30 m e)
        (λ cm. connect_and_report-Keeps (with_reference m cm) w cm)

  reconcile_monitor-Keeps :
      (m : CollectorMonitor) → Keeps I (reconcile_monitor {env = env} show_selector quote m)
  unfolding reconcile_monitor
  reconcile_monitor-Keeps m =
      bind-Keeps (attempt-Keeps (discover_workload-Keeps reads show_selector m)) λ found.
        sum-Keeps found (λ e. give_up-Keeps reads show_selector quote _ 30 m e)
          (λ w. with_workload-Keeps m w)

  gone-Keeps :
      (req : ObjectKey) (e : GoError) → Keeps I (monitor_gone {env = env} show_selector quote req e)
  unfolding monitor_gone
  gone-Keeps req e =
      if-Keeps _ (bind-Keeps (effects.cleanup _ _) (λ _. pure-Keeps (after 0))) (raise-Keeps e)

  -- What the calls keep, a reconciliation keeps on every path, whatever it returns.
  pub reconcile-Keeps : (req : ObjectKey) → Keeps I (reconcile {env = env} show_selector quote req)
  unfolding reconcile
  reconcile-Keeps req =
      bind-Keeps (attempt-Keeps (reads.monitor req))
        λ found. sum-Keeps found (λ e. gone-Keeps req e) (λ m. reconcile_monitor-Keeps m)
