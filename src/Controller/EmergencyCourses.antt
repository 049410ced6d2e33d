-- ===== src/Controller/EmergencyCourses.antt =====
-- The six courses of `applyEmergencyConfig` of
-- operator/controllers/collectormonitor_controller.go.
use collectorctrl_k8s_code.Common.{
  Option, none, some, ◌≡◌, refl, Text, text, Assoc, ◌⊎◌, inl, inr, GoError, Outcome, ok, err, panic,
  wrapf, Option-cases,
}
use collectorctrl_k8s_code.Monitor.{CollectorMonitor, ConfigMapReference, WorkloadSelector}
use collectorctrl_k8s_code.Controller.Cluster.{Workload, ConfigMap}
use collectorctrl_k8s_code.Controller.Action.{Env, World}
use collectorctrl_k8s_code.Controller.Discovery.{discover_workload}
use collectorctrl_k8s_code.Controller.Emergency.{
  apply_emergency_config, apply_to, replace_config, restart_patch, patch_context, emergency_event,
}
use collectorctrl_k8s_code.Controller.EmergencyRuns.{
  key_of_ref, replaced, apply_emergency_config_empty, apply_emergency_config_unwritten,
  apply_emergency_config_applied, apply_emergency_config_not_restarted,
}
use collectorctrl_k8s_code.Controller.Refining.{memory_reads}
use collectorctrl_k8s_code.Controller.Consistency.{Memory}
use collectorctrl_k8s_code.Controller.Selected.{HasSelector, ListsSelectors, discover_workload-Ends}
use collectorctrl_k8s_code.Controller.Complete.{EndsWell-cases}

module _ {env : Env} (show_selector : WorkloadSelector → Text) (monitor : CollectorMonitor)
    (yaml : Text) (ref : ConfigMapReference) (w : World env) where
  -- The config map was read and has data, and it was written with the one key replaced.
  pub record IsWritten (cm : ConfigMap) (m : Assoc Text) (s1 : env.cluster.State) : Type 0 where
    pub state : env.cluster.State
    pub found : env.cluster.get_config_map (key_of_ref ref) w.cluster ≡ (inr cm, state)
    pub holds : cm.contents ≡ some m
    pub written : env.cluster.update_config_map (replaced ref.key yaml cm m) state ≡ (none, s1)

  -- How it goes, and what it leaves.
  pub data EmergencyCourse : Outcome (Unit {0}) × World env → Type 0 where
    unread :
        (e : GoError) (s : env.cluster.State)
        → env.cluster.get_config_map (key_of_ref ref) w.cluster ≡ (inl e, s)
        → EmergencyCourse (err (wrapf (text "get configmap") e), record w { cluster = s })
    empty :
        (cm : ConfigMap) (s : env.cluster.State)
        → env.cluster.get_config_map (key_of_ref ref) w.cluster ≡ (inr cm, s)
        → cm.contents ≡ none
        → EmergencyCourse (panic, record w { cluster = s })
    unwritten :
        (cm : ConfigMap) (s : env.cluster.State) (m : Assoc Text) (e : GoError)
        (s1 : env.cluster.State)
        → env.cluster.get_config_map (key_of_ref ref) w.cluster ≡ (inr cm, s)
        → cm.contents ≡ some m
        → env.cluster.update_config_map (replaced ref.key yaml cm m) s ≡ (some e, s1)
        → EmergencyCourse (err (wrapf (text "update configmap") e), record w { cluster = s1 })
    undiscovered :
        (cm : ConfigMap) (m : Assoc Text) (s1 : env.cluster.State) (e : GoError) (v : World env)
        → IsWritten cm m s1
        → discover_workload show_selector monitor (record w { cluster = s1 }) ≡ (err e, v)
        → EmergencyCourse (err (wrapf (text "discover workload for restart") e), v)
    not_restarted :
        (cm : ConfigMap) (m : Assoc Text) (s1 : env.cluster.State) (wl : Workload) (v : World env)
        (e : GoError) (s2 : env.cluster.State)
        → IsWritten cm m s1
        → discover_workload show_selector monitor (record w { cluster = s1 }) ≡ (ok wl, v)
        → (let (t, s) = env.cluster.now v.cluster in
            env.cluster.patch_workload wl (restart_patch (env.cluster.rfc3339 t)) s ≡ (some e, s2))
        → EmergencyCourse (err (wrapf (patch_context wl.kind) e), record v { cluster = s2 })
    applied :
        (cm : ConfigMap) (m : Assoc Text) (s1 : env.cluster.State) (wl : Workload) (v : World env)
        (s2 : env.cluster.State)
        → IsWritten cm m s1
        → discover_workload show_selector monitor (record w { cluster = s1 }) ≡ (ok wl, v)
        → (let (t, s) = env.cluster.now v.cluster in
            env.cluster.patch_workload wl (restart_patch (env.cluster.rfc3339 t)) s ≡ (none, s2))
        → EmergencyCourse (
          ok tt,
          record v {
            cluster =
                env.cluster.record_event monitor
                  (emergency_event (replaced ref.key yaml cm m) wl.kind)
                  s2;
          },
        )

module _ {env : Env} (show_selector : WorkloadSelector → Text) (monitor : CollectorMonitor)
    (yaml : Text) (ref : ConfigMapReference) (referred : monitor.status.config_map_ref ≡ some ref)
    (w : World env) where
  unread-run :
      (e : GoError) (s : env.cluster.State)
      → env.cluster.get_config_map (key_of_ref ref) w.cluster ≡ (inl e, s)
      → apply_emergency_config show_selector monitor yaml w
        ≡ (err (wrapf (text "get configmap") e), record w { cluster = s })
  unfolding apply_emergency_config apply_to
  unread-run e s h = rw (referred, h)

  undiscovered-run :
      (cm : ConfigMap) (m : Assoc Text) (s1 : env.cluster.State) (e : GoError) (v : World env)
      → IsWritten show_selector monitor yaml ref w cm m s1
      → discover_workload show_selector monitor (record w { cluster = s1 }) ≡ (err e, v)
      → apply_emergency_config show_selector monitor yaml w
        ≡ (err (wrapf (text "discover workload for restart") e), v)
  unfolding apply_emergency_config apply_to replace_config discover_workload wrapf
  undiscovered-run cm m s1 e v h d = rw (referred, h.found, h.holds, h.written, d)

  apply-EmergencyCourse :
      (o : Outcome (Unit {0}) × World env)
      → EmergencyCourse show_selector monitor yaml ref w o
      → apply_emergency_config show_selector monitor yaml w ≡ o
  apply-EmergencyCourse _ (unread e s h) = unread-run e s h
  apply-EmergencyCourse _ (empty cm s h k) =
      apply_emergency_config_empty show_selector monitor yaml ref referred w cm s h k
  apply-EmergencyCourse _ (unwritten cm s m e s1 h k l) =
      apply_emergency_config_unwritten show_selector monitor yaml ref referred w cm s h m k e s1 l
  apply-EmergencyCourse _ (undiscovered cm m s1 e v h d) = undiscovered-run cm m s1 e v h d
  apply-EmergencyCourse _ (not_restarted cm m s1 wl v e s2 h d p) =
      apply_emergency_config_not_restarted show_selector monitor yaml ref referred w cm h.state
        h.found m h.holds s1 h.written wl v d e s2 p
  apply-EmergencyCourse _ (applied cm m s1 wl v s2 h d p) =
      apply_emergency_config_applied show_selector monitor yaml ref referred w cm h.state h.found m
        h.holds s1 h.written wl v d s2 p

answer-cases :
    {A S : Type 0} (r : GoError ⊎ A) (s : S)
    → ((e : GoError) × ◌≡◌ {A = (GoError ⊎ A) × S} (r, s) (inl e, s))
      ⊎ ((a : A) × ◌≡◌ {A = (GoError ⊎ A) × S} (r, s) (inr a, s))
answer-cases (inl e) s = inl (e, refl)
answer-cases (inr a) s = inr (a, refl)

error-cases :
    {S : Type 0} (e : Option GoError) (s : S)
    → ◌≡◌ {A = Option GoError × S} (e, s) (none, s)
      ⊎ ((x : GoError) × ◌≡◌ {A = Option GoError × S} (e, s) (some x, s))
error-cases none s = inl refl
error-cases (some x) s = inr (x, refl)

module _ {env : Env} (lists : ListsSelectors env.cluster) (show_selector : WorkloadSelector → Text)
    (monitor : CollectorMonitor) (yaml : Text) (ref : ConfigMapReference) (w : World env) where
  abbrev Runs : Type 0
  Runs = (o : Outcome (Unit {0}) × World env) × EmergencyCourse show_selector monitor yaml ref w o

  abbrev Anything : Memory env.lib.Conn → Type 0
  Anything m = Unit

  patched-Runs :
      (cm : ConfigMap) (m : Assoc Text) (s1 : env.cluster.State) (wl : Workload) (v : World env)
      → IsWritten show_selector monitor yaml ref w cm m s1
      → discover_workload show_selector monitor (record w { cluster = s1 }) ≡ (ok wl, v)
      → Runs
  patched-Runs cm m s1 wl v h d =
      let (t, s) = env.cluster.now v.cluster in
      let (x, s2) = env.cluster.patch_workload wl (restart_patch (env.cluster.rfc3339 t)) s in
      elim (error-cases x s2) [
        | inl p ↦ (_, applied cm m s1 wl v s2 h d p)
        | inr (e, p) ↦ (_, not_restarted cm m s1 wl v e s2 h d p)
      ]

  written-Runs :
      (cm : ConfigMap) (m : Assoc Text) (s1 : env.cluster.State)
      → IsWritten show_selector monitor yaml ref w cm m s1
      → Runs
  written-Runs cm m s1 h =
      let (r, v) = discover_workload show_selector monitor (record w { cluster = s1 }) in
      let ended =
        (discover_workload-Ends (memory_reads Anything) show_selector lists monitor).ends
          (record w { cluster = s1 }) tt in
      elim (EndsWell-cases HasSelector r v ended) [
        | inl (wl, d, _) ↦ patched-Runs cm m s1 wl v h d
        | inr (e, d) ↦ (_, undiscovered cm m s1 e v h d)
      ]

  found-Runs :
      (cm : ConfigMap) (s : env.cluster.State)
      → env.cluster.get_config_map (key_of_ref ref) w.cluster ≡ (inr cm, s)
      → Runs
  found-Runs cm s h = elim (Option-cases cm.contents) [
    | inl k ↦ (_, empty cm s h k)
    | inr (m, k) ↦
        let (x, s1) = env.cluster.update_config_map (replaced ref.key yaml cm m) s in
        elim (error-cases x s1) [
          | inl l ↦ written-Runs cm m s1 (record { state = s; found = h; holds = k; written = l })
          | inr (e, l) ↦ (_, unwritten cm s m e s1 h k l)
        ]
  ]

  any-Runs : Runs
  any-Runs =
      let (r, s) = env.cluster.get_config_map (key_of_ref ref) w.cluster in
      elim (answer-cases r s) [ inl (e, h) ↦ (_, unread e s h) | inr (cm, h) ↦ found-Runs cm s h ]

-- If the cluster lists no workload without a selector, then applying an emergency for a monitor that
-- refers to a config map takes one of six courses. It fails with nothing written if the config map
-- is not read, panics with nothing written if it has no data, and fails if it is not written; when it
-- is written, it holds the configuration under its key, and stays so if the workload is then not
-- found or not patched, which is an error. Only after the patch, the event is recorded and it
-- succeeds.
pub emergency_complete :
    {env : Env} (lists : ListsSelectors env.cluster) (show_selector : WorkloadSelector → Text)
    (monitor : CollectorMonitor) (yaml : Text) (ref : ConfigMapReference)
    → monitor.status.config_map_ref ≡ some ref
    → (w : World env)
    → (o : Outcome (Unit {0}) × World env) × EmergencyCourse show_selector monitor yaml ref w o
      × (apply_emergency_config show_selector monitor yaml w ≡ o)
emergency_complete lists show_selector monitor yaml ref referred w =
    let (o, c) = any-Runs lists show_selector monitor yaml ref w in
    (o, c, apply-EmergencyCourse show_selector monitor yaml ref referred w o c)
