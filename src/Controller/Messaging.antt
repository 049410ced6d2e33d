-- ===== src/Controller/Messaging.antt =====
-- What the handlers of operator/controllers/collectormonitor_controller.go keep, out of what their
-- calls keep.
use collectorctrl_k8s_code.Common.{ℕ, Bool, true, false, Option, none, some, List, [], ◌∷◌, Text}
use collectorctrl_k8s_code.Monitor.{CollectorMonitor, ConfigMapReference, WorkloadSelector}
use collectorctrl_k8s_code.Opamp.{Invocation, config_update, emergency, fetch_logs, on_message}
use collectorctrl_k8s_code.Opamp.Protocol.{MessageData}
use collectorctrl_k8s_code.Controller.Cluster.{Workload, ConfigMap}
use collectorctrl_k8s_code.Controller.Action.{Env, World, Act, Captured, ask, tell, note}
use collectorctrl_k8s_code.Controller.Keeping.{
  Keeps, pure-Keeps, raise-Keeps, crash-Keeps, read-Keeps, attempt-Keeps, in_context-Keeps,
  if-Keeps, bind-Keeps, sum-Keeps, option-Keeps,
}
use collectorctrl_k8s_code.Controller.Steps.{KeepsReads, KeepsCalls, discover_workload-Keeps}
use collectorctrl_k8s_code.Controller.Connected.{load-Keeps}
use collectorctrl_k8s_code.Controller.Emergency.{
  apply_emergency_config, apply_to, replace_config, restart_patch, emergency_event, patch_context,
}
use collectorctrl_k8s_code.Controller.Handlers.{
  run_handler, run_handlers, deliver, emergency_handler, logs_handler, acknowledge, get_pod_logs,
  fetch_with, read_logs, is_disabled, tail_lines,
}

pub record KeepsLogs {env : Env} (I : World env → Type 0) : Type 0 where
  pub opened : (ns pod : Text) → Keeps I (ask (env.cluster.open_logs ns pod tail_lines))
  pub read_all : (stream : env.cluster.LogStream) → Keeps I (ask (env.cluster.read_all stream))
  pub close :
      (stream : env.cluster.LogStream) → Keeps I (note {env = env} (env.cluster.close_logs stream))

-- The calls that change the fleet.
pub record KeepsWrites {env : Env} (I : World env → Type 0) : Type 0 where
  pub config_map : (cm : ConfigMap) → Keeps I (tell (env.cluster.update_config_map cm))
  pub patch : (w : Workload) (p : Text) → Keeps I (tell (env.cluster.patch_workload w p))

module _ {env : Env} {I : World env → Type 0} where
  replace_config-Keeps :
      (key yaml : Text) (cm : ConfigMap) → Keeps I (replace_config {env = env} key yaml cm)
  unfolding replace_config
  replace_config-Keeps key yaml cm = option-Keeps cm.contents crash-Keeps (λ m. pure-Keeps _)

  acknowledge-Keeps : {m : Act env (Unit {0})} → Keeps I m → Keeps I (acknowledge m)
  unfolding acknowledge
  acknowledge-Keeps k = bind-Keeps (attempt-Keeps k) λ _. pure-Keeps tt

module _ {env : Env} {I : World env → Type 0} (logs : KeepsLogs I) where
  read_logs-Keeps : (stream : env.cluster.LogStream) → Keeps I (read_logs {env = env} stream)
  unfolding read_logs
  read_logs-Keeps stream = bind-Keeps (attempt-Keeps (logs.read_all stream)) λ found.
      bind-Keeps (logs.close stream) λ _. sum-Keeps found (λ e. raise-Keeps e) (λ l. pure-Keeps l)

  fetch_with-Keeps : (ready : Bool) (ns pod : Text) → Keeps I (fetch_with {env = env} ready ns pod)
  unfolding fetch_with
  fetch_with-Keeps true ns pod = bind-Keeps (logs.opened ns pod) read_logs-Keeps
  fetch_with-Keeps false ns pod = raise-Keeps _

  pub get_pod_logs-Keeps : (ns pod : Text) → Keeps I (get_pod_logs {env = env} ns pod)
  unfolding get_pod_logs
  get_pod_logs-Keeps ns pod =
      bind-Keeps (read-Keeps (λ w. w.has_clientset)) λ ready. fetch_with-Keeps ready ns pod

module _ {env : Env} {I : World env → Type 0} (calls : KeepsCalls I) (logs : KeepsLogs I)
    (show_selector : WorkloadSelector → Text) where
  pub logs_handler-Keeps :
      (captured : Captured) (pod : Text)
      → Keeps I (logs_handler {env = env} show_selector captured pod)
  unfolding logs_handler
  logs_handler-Keeps captured pod =
      bind-Keeps (attempt-Keeps (get_pod_logs-Keeps logs captured.monitor.namespace pod))
        λ found. acknowledge-Keeps (calls.method captured.client _)

module _ {env : Env} {I : World env → Type 0} (reads : KeepsReads I) (calls : KeepsCalls I)
    (logs : KeepsLogs I) (writes : KeepsWrites I) (show_selector : WorkloadSelector → Text) where
  apply_to-Keeps :
      (m : CollectorMonitor) (yaml : Text) (ref : Option ConfigMapReference)
      → Keeps I (apply_to {env = env} show_selector m yaml ref)
  unfolding apply_to
  apply_to-Keeps m yaml none = crash-Keeps
  apply_to-Keeps m yaml (some ref) = bind-Keeps (in_context-Keeps _ (reads.config_map _)) λ found.
      bind-Keeps (replace_config-Keeps ref.key yaml found) λ cm.
        bind-Keeps (in_context-Keeps _ (writes.config_map cm)) λ _.
          bind-Keeps (in_context-Keeps _ (discover_workload-Keeps reads show_selector m)) λ w.
            bind-Keeps reads.time λ time.
              bind-Keeps
                (in_context-Keeps (patch_context w.kind)
                  (writes.patch w (restart_patch (env.cluster.rfc3339 time))))
                λ _. calls.event m (emergency_event cm w.kind)

  pub apply_emergency_config-Keeps :
      (m : CollectorMonitor) (yaml : Text)
      → Keeps I (apply_emergency_config {env = env} show_selector m yaml)
  unfolding apply_emergency_config
  apply_emergency_config-Keeps m yaml = apply_to-Keeps m yaml m.status.config_map_ref

  emergency_handler-Keeps :
      (captured : Captured) (yaml : Text)
      → Keeps I (emergency_handler {env = env} show_selector captured yaml)
  unfolding emergency_handler
  emergency_handler-Keeps captured yaml =
      if-Keeps (is_disabled captured.monitor.spec.emergency_mode.enabled) (pure-Keeps tt) (
        bind-Keeps (attempt-Keeps (apply_emergency_config-Keeps captured.monitor yaml))
          λ applied. acknowledge-Keeps (calls.method captured.client _))

  run_handler-Keeps : (i : Invocation Captured) → Keeps I (run_handler {env = env} show_selector i)
  unfolding run_handler
  run_handler-Keeps (config_update captured update) = pure-Keeps tt
  run_handler-Keeps (emergency captured cmd) = emergency_handler-Keeps captured cmd.config_yaml
  run_handler-Keeps (fetch_logs captured pod) =
      logs_handler-Keeps calls logs show_selector captured pod

  run_handlers-Keeps :
      (is : List (Invocation Captured)) → Keeps I (run_handlers {env = env} show_selector is)
  unfolding run_handlers
  run_handlers-Keeps [] = pure-Keeps tt
  run_handlers-Keeps (i ∷ is) = bind-Keeps (run_handler-Keeps i) λ _. run_handlers-Keeps is

  -- What the calls keep, a message keeps, whatever it holds.
  pub deliver-Keeps :
      (p : ℕ) (msg : MessageData) → Keeps I (deliver {env = env} show_selector p msg)
  unfolding deliver
  deliver-Keeps p msg = bind-Keeps (load-Keeps I p) λ c. run_handlers-Keeps (on_message c msg)
