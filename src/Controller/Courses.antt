-- ===== src/Controller/Courses.antt =====
-- The four courses that a reconciliation of operator/controllers/collectormonitor_controller.go
-- takes for a monitor that it fetches.
use collectorctrl_k8s_code.Common.{
  ℕ, Option, none, some, ◌≡◌, ◌≢◌, refl, ◌⊎◌, inr, Text, text, GoError, Outcome, ok, err, panic,
}
use collectorctrl_k8s_code.Monitor.{CollectorMonitor, WorkloadSelector}
use collectorctrl_k8s_code.Controller.Cluster.{Workload, ConfigMap, ObjectKey}
use collectorctrl_k8s_code.Controller.Action.{Env, World, continue, failed, pure}
use collectorctrl_k8s_code.Controller.Status.{
  set_condition, new_condition, put_condition, with_conditions,
}
use collectorctrl_k8s_code.Controller.Discovery.{discover_workload, discover_config_map}
use collectorctrl_k8s_code.Controller.Connection.{ensure_opamp_connection}
use collectorctrl_k8s_code.Controller.Fleet.{report_fleet_health}
use collectorctrl_k8s_code.Controller.Reconcile.{
  reconcile, reconcile_monitor, with_workload, connect_and_report, report_and_update, check_drift,
  with_reference, with_phase, after, ReconcileResult,
}
use collectorctrl_k8s_code.Controller.GivingUp.{
  clock_read, reconcile_undiscovered, reconcile_unresolved, reconcile_unconnected,
}

-- The object that is sent to the cluster after a pass.
abbrev pub active_at : ℕ → CollectorMonitor → CollectorMonitor
active_at time m =
    with_conditions
      (put_condition (record {
        type = text "Active";
        status = text "True";
        observed_generation = 0;
        last_transition_time = time;
        reason = text "ActiveSucceeded";
        message = text "Monitoring collector fleet";
      }))
      (with_phase (text "Active") m)

abbrev pub passed : Option GoError → Outcome ReconcileResult
passed none = ok (after 60)
passed (some e) = err e

-- The clock is read, and the status is updated once.
abbrev pub activated :
    {env : Env} → CollectorMonitor → World env → Outcome ReconcileResult × World env
activated {env} m w =
    let (time, s) = env.cluster.now w.cluster in
    let (e, t) = env.cluster.update_status (active_at time m) s in
    (passed e, record w { cluster = t })

module _ {env : Env} (show_selector : WorkloadSelector → Text) (quote : Text → Text)
    (m : CollectorMonitor) (w : World env) where
  -- How a reconciliation goes on in a world, for a monitor that it has just fetched.
  pub data Course : Outcome ReconcileResult × World env → Type 0 where
    undiscovered :
        (e : GoError) (v : World env)
        → discover_workload show_selector m w ≡ (err e, v)
        → Course (ok (after 30), clock_read v)
    unresolved :
        (wl : Workload) (v : World env) (e : GoError) (u : World env)
        → discover_workload show_selector m w ≡ (ok wl, v)
        → discover_config_map m v ≡ (err e, u)
        → Course (ok (after 30), clock_read u)
    unconnected :
        (wl : Workload) (v : World env) (cm : ConfigMap) (u : World env) (e : GoError)
        (t : World env)
        → discover_workload show_selector m w ≡ (ok wl, v)
        → discover_config_map m v ≡ (ok cm, u)
        → ensure_opamp_connection (with_reference m cm) wl u ≡ (err e, t)
        → Course (ok (after 10), clock_read t)
    watched :
        (wl : Workload) (v : World env) (cm : ConfigMap) (u t x y : World env)
        (r : Outcome (Unit {0})) (d : GoError ⊎ Unit {0})
        → discover_workload show_selector m w ≡ (ok wl, v)
        → discover_config_map m v ≡ (ok cm, u)
        → ensure_opamp_connection (with_reference m cm) wl u ≡ (ok tt, t)
        → report_fleet_health (with_reference m cm) wl t ≡ (r, x)
        → r ≢ panic
        → check_drift show_selector quote (with_reference m cm) cm x ≡ (ok d, y)
        → Course (activated (with_reference m cm) y)

updated :
    {env : Env} (e : Option GoError) (w : World env)
    → continue {env = env} (failed e) (λ _. pure (after 60)) w ≡ (passed e, w)
updated none w = refl
updated (some e) w = refl

module _ {env : Env} (show_selector : WorkloadSelector → Text) (quote : Text → Text) where
  report_and_update-run :
      (m : CollectorMonitor) (wl : Workload) (cm : ConfigMap) (t x y : World env)
      (r : Outcome (Unit {0})) (d : GoError ⊎ Unit {0})
      → report_fleet_health m wl t ≡ (r, x)
      → r ≢ panic
      → check_drift show_selector quote m cm x ≡ (ok d, y)
      → report_and_update show_selector quote m wl cm t ≡ activated m y
  unfolding report_and_update set_condition new_condition text
  report_and_update-run m wl cm t x y (ok a) d reported ends checked =
      let (time, z) = env.cluster.now y.cluster in
      let (e, q) = env.cluster.update_status (active_at time m) z in
      rw (reported, checked, updated e (record y { cluster = q }))
  report_and_update-run m wl cm t x y (err e) d reported ends checked =
      let (time, z) = env.cluster.now y.cluster in
      let (e, q) = env.cluster.update_status (active_at time m) z in
      rw (reported, checked, updated e (record y { cluster = q }))
  report_and_update-run m wl cm t x y panic d reported ends checked = absurd (ends refl)

module _ {env : Env} (show_selector : WorkloadSelector → Text) (quote : Text → Text)
    (req : ObjectKey) (w : World env) (m : CollectorMonitor) (s : env.cluster.State)
    (fetched : env.cluster.get_monitor req w.cluster ≡ (inr m, s)) where
  pub reconcile-Course :
      (o : Outcome ReconcileResult × World env)
      → Course show_selector quote m (record w { cluster = s }) o
      → reconcile show_selector quote req w ≡ o
  unfolding reconcile reconcile_monitor with_workload connect_and_report report_and_update
      set_condition new_condition
  reconcile-Course _ (undiscovered e v h) =
      reconcile_undiscovered show_selector quote req w m s fetched e v h
  reconcile-Course _ (unresolved wl v e u h k) =
      reconcile_unresolved show_selector quote req w m s fetched wl v h e u k
  reconcile-Course _ (unconnected wl v cm u e t h k l) =
      reconcile_unconnected show_selector quote req w m s fetched wl v h cm u e t k l
  reconcile-Course _ (watched wl v cm u t x y r d h k l reported ends checked) = rw (
    fetched,
    h,
    k,
    l,
    report_and_update-run show_selector quote (with_reference m cm) wl cm t x y r d reported ends
        checked,
  )
