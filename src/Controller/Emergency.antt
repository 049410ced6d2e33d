-- ===== src/Controller/Emergency.antt =====
-- `applyEmergencyConfig` of operator/controllers/collectormonitor_controller.go.
use collectorctrl_k8s_code.Common.{Option, none, some, ◌++◌, Text, text, insert}
use collectorctrl_k8s_code.Monitor.{CollectorMonitor, ConfigMapReference, WorkloadSelector}
use collectorctrl_k8s_code.Controller.Cluster.{
  WorkloadKind, daemon_set, deployment, stateful_set, kind_name, ConfigMap, Event,
}
use collectorctrl_k8s_code.Controller.Action.{
  Env, Act, pure, crash, ask, tell, in_context, note, clock, ◌>>=◌, ◌>>◌,
}
use collectorctrl_k8s_code.Controller.Discovery.{discover_workload}

unfoldable pub restart_patch : Text → Text
restart_patch time =
    text
      "{\"spec\":{\"template\":{\"metadata\":{\"annotations\":{\"kubectl.kubernetes.io/restartedAt\":\""
    ++ (time ++ text "\"}}}}}")

unfoldable pub patch_context : WorkloadKind → Text
patch_context daemon_set = text "patch daemonset"
patch_context deployment = text "patch deployment"
patch_context stateful_set = text "patch statefulset"

unfoldable pub emergency_event : ConfigMap → WorkloadKind → Event
emergency_event cm kind = record {
  reason = text "EmergencyConfigApplied";
  message =
      text "Emergency config applied to ConfigMap "
      ++ (cm.namespace
          ++ (text "/"
              ++ (cm.name
                  ++ (text ". " ++ (kind_name kind ++ text " rolling restart triggered.")))));
}

module _ {env : Env} where
  -- A write to a nil map panics.
  unfoldable pub replace_config : Text → Text → ConfigMap → Act env ConfigMap
  replace_config key config_yaml cm = elim cm.contents [
    | none ↦ crash
    | some m ↦ pure (record cm { contents = some (insert key config_yaml m) })
  ]

module _ {env : Env} (show_selector : WorkloadSelector → Text) where
  unfoldable pub apply_to : CollectorMonitor → Text → Option ConfigMapReference → Act env (Unit {0})
  unfolding replace_config
  apply_to monitor config_yaml none = crash
  apply_to monitor config_yaml (some ref) = do
    found ←
        in_context (text "get configmap")
          (ask (env.cluster.get_config_map (record { namespace = ref.namespace; name = ref.name })))
    cm ← replace_config ref.key config_yaml found
    in_context (text "update configmap") (tell (env.cluster.update_config_map cm))
    w ← in_context (text "discover workload for restart") (discover_workload show_selector monitor)
    time ← clock
    in_context (patch_context w.kind)
        (tell (env.cluster.patch_workload w (restart_patch (env.cluster.rfc3339 time))))
    note (env.cluster.record_event monitor (emergency_event cm w.kind))

  unfoldable pub apply_emergency_config : CollectorMonitor → Text → Act env (Unit {0})
  unfolding apply_to
  apply_emergency_config monitor config_yaml =
      apply_to monitor config_yaml monitor.status.config_map_ref
