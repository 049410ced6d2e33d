-- ===== src/Controller/EmergencyRuns.antt =====
-- The runs of `applyEmergencyConfig` of operator/controllers/collectormonitor_controller.go.
use collectorctrl_k8s_code.Common.{
  none, some, ◌≡◌, Text, text, Assoc, inr, GoError, ok, err, panic, insert, wrapf,
}
use collectorctrl_k8s_code.Monitor.{CollectorMonitor, ConfigMapReference, WorkloadSelector}
use collectorctrl_k8s_code.Controller.Cluster.{Workload, ConfigMap, ObjectKey}
use collectorctrl_k8s_code.Controller.Action.{Env, World}
use collectorctrl_k8s_code.Controller.Discovery.{discover_workload}
use collectorctrl_k8s_code.Controller.Emergency.{
  apply_emergency_config, apply_to, replace_config, restart_patch, patch_context, emergency_event,
}

abbrev pub key_of_ref : ConfigMapReference → ObjectKey
key_of_ref ref = record { namespace = ref.namespace; name = ref.name }

-- The config map with one key replaced.
abbrev pub replaced : Text → Text → ConfigMap → Assoc Text → ConfigMap
replaced key yaml cm m = record cm { contents = some (insert key yaml m) }

module _ {env : Env} (show_selector : WorkloadSelector → Text) (monitor : CollectorMonitor)
    (yaml : Text) (ref : ConfigMapReference) (referred : monitor.status.config_map_ref ≡ some ref)
    (w : World env) (cm : ConfigMap) (s0 : env.cluster.State)
    (found : env.cluster.get_config_map (key_of_ref ref) w.cluster ≡ (inr cm, s0)) where
  -- If the monitor refers to a config map, and that is read but has no data at all, applying an
  -- emergency panics, with nothing written.
  pub apply_emergency_config_empty :
      cm.contents ≡ none
      → apply_emergency_config show_selector monitor yaml w ≡ (panic, record w { cluster = s0 })
  unfolding apply_emergency_config apply_to replace_config
  apply_emergency_config_empty h = rw (referred, found, h)

  module _ (m : Assoc Text) (holds : cm.contents ≡ some m) where
    -- If the config map that the monitor refers to is read and has data, but cannot be written, the
    -- error is returned, and nothing follows: no workload is restarted, and no event is recorded.
    pub apply_emergency_config_unwritten :
        (e : GoError) (s1 : env.cluster.State)
        → env.cluster.update_config_map (replaced ref.key yaml cm m) s0 ≡ (some e, s1)
        → apply_emergency_config show_selector monitor yaml w
          ≡ (err (wrapf (text "update configmap") e), record w { cluster = s1 })
    unfolding apply_emergency_config apply_to replace_config
    apply_emergency_config_unwritten e s1 h = rw (referred, found, holds, h)

    module _ (s1 : env.cluster.State)
        (written : env.cluster.update_config_map (replaced ref.key yaml cm m) s0 ≡ (none, s1))
        (wl : Workload) (v : World env)
        (discovered : discover_workload show_selector monitor (record w { cluster = s1 })
          ≡ (ok wl, v)) where
      -- If the config map that the monitor refers to is read, has data and is written, the workload
      -- is then discovered and is patched, applying an emergency succeeds: what was written is the
      -- config map with the configuration under its key, and at last the event is recorded.
      pub apply_emergency_config_applied :
          (s2 : env.cluster.State)
          → let (t, s) = env.cluster.now v.cluster in
            env.cluster.patch_workload wl (restart_patch (env.cluster.rfc3339 t)) s ≡ (none, s2)
            → apply_emergency_config show_selector monitor yaml w ≡ (
              ok tt,
              record v {
                cluster =
                    env.cluster.record_event monitor
                      (emergency_event (replaced ref.key yaml cm m) wl.kind)
                      s2;
              },
            )
      unfolding apply_emergency_config apply_to replace_config discover_workload emergency_event
      apply_emergency_config_applied s2 h = rw (referred, found, holds, written, discovered, h)

      -- If the config map is written and the workload is discovered, but cannot be patched, the error
      -- is returned and no event is recorded; the config map stays written.
      pub apply_emergency_config_not_restarted :
          (e : GoError) (s2 : env.cluster.State)
          → let (t, s) = env.cluster.now v.cluster in
            env.cluster.patch_workload wl (restart_patch (env.cluster.rfc3339 t)) s ≡ (some e, s2)
            → apply_emergency_config show_selector monitor yaml w
              ≡ (err (wrapf (patch_context wl.kind) e), record v { cluster = s2 })
      unfolding apply_emergency_config apply_to replace_config discover_workload wrapf
      apply_emergency_config_not_restarted e s2 h =
          rw (referred, found, holds, written, discovered, h)
