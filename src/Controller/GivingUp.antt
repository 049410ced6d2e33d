-- ===== src/Controller/GivingUp.antt =====
-- The three ways in which `Reconcile` of operator/controllers/collectormonitor_controller.go gives
-- up and asks to be called again.
use collectorctrl_k8s_code.Common.{◌≡◌, Text, inr, GoError, ok, err}
use collectorctrl_k8s_code.Monitor.{CollectorMonitor, WorkloadSelector}
use collectorctrl_k8s_code.Controller.Cluster.{Workload, ConfigMap, ObjectKey}
use collectorctrl_k8s_code.Controller.Action.{Env, World}
use collectorctrl_k8s_code.Controller.Discovery.{discover_workload, discover_config_map}
use collectorctrl_k8s_code.Controller.Connection.{ensure_opamp_connection}
use collectorctrl_k8s_code.Controller.Status.{set_condition}
use collectorctrl_k8s_code.Controller.Reconcile.{
  reconcile, reconcile_monitor, with_workload, connect_and_report, give_up, with_reference, after,
}

-- The world after one more reading of the clock.
abbrev pub clock_read : {env : Env} → World env → World env
clock_read {env} w = record w { cluster = (env.cluster.now w.cluster).1 }

module _ {env : Env} (show_selector : WorkloadSelector → Text) (quote : Text → Text)
    (req : ObjectKey) (w : World env) (m : CollectorMonitor) (s : env.cluster.State)
    (fetched : env.cluster.get_monitor req w.cluster ≡ (inr m, s)) where
  -- If the monitor is fetched and the discovery of its workload fails, the reconciliation asks to be
  -- called again after 30 seconds, and does no more than read the clock: the status in the cluster
  -- is not updated.
  pub reconcile_undiscovered :
      (e : GoError) (v : World env)
      → discover_workload show_selector m (record w { cluster = s }) ≡ (err e, v)
      → reconcile show_selector quote req w ≡ (ok (after 30), clock_read v)
  unfolding reconcile reconcile_monitor give_up set_condition
  reconcile_undiscovered e v h = rw (fetched, h)

  module _ (wl : Workload) (v : World env)
      (discovered : discover_workload show_selector m (record w { cluster = s }) ≡ (ok wl, v)) where
    -- If the workload is discovered and the discovery of the config map fails, the reconciliation
    -- asks to be called again after 30 seconds, and does no more than read the clock: the status in
    -- the cluster is not updated.
    pub reconcile_unresolved :
        (e : GoError) (u : World env)
        → discover_config_map m v ≡ (err e, u)
        → reconcile show_selector quote req w ≡ (ok (after 30), clock_read u)
    unfolding reconcile reconcile_monitor with_workload give_up set_condition
    reconcile_unresolved e u h = rw (fetched, discovered, h)

    -- If workload and config map are discovered and the connection fails, the reconciliation asks to
    -- be called again after 10 seconds, and does no more than read the clock: the status in the
    -- cluster is not updated, and neither health nor drift is looked at.
    pub reconcile_unconnected :
        (cm : ConfigMap) (u : World env) (e : GoError) (t : World env)
        → discover_config_map m v ≡ (ok cm, u)
        → ensure_opamp_connection (with_reference m cm) wl u ≡ (err e, t)
        → reconcile show_selector quote req w ≡ (ok (after 10), clock_read t)
    unfolding reconcile reconcile_monitor with_workload connect_and_report give_up set_condition
    reconcile_unconnected cm u e t resolved h = rw (fetched, discovered, resolved, h)
