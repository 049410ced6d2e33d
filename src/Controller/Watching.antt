-- ===== src/Controller/Watching.antt =====
-- Which monitors a changed config map wakes, in
-- operator/controllers/collectormonitor_controller.go.
use collectorctrl_k8s_code.Common.{
  Bool, true, Option, none, some, List, [], ◌∷◌, map, ◌≡◌, ◌↔◌, ◌⊎◌, inl, inr, refl, Text, ==_iff,
  select, arith, ◌||◌, GoError, ok,
}
use collectorctrl_k8s_code.Monitor.{CollectorMonitor, ConfigMapReference, ConfigMapSelector}
use collectorctrl_k8s_code.Controller.Action.{Env, World}
use collectorctrl_k8s_code.Controller.Cluster.{ConfigMap, ObjectKey}
use collectorctrl_k8s_code.Controller.Reconcile.{
  names_ref, names_selector, requests_for, map_config_map_to_monitors,
}

-- The config map of the name is the one that the monitor is known to use, or the one that its
-- specification asks for.
abbrev pub Concerns : Text → CollectorMonitor → Type 0
Concerns name m =
    ((ref : ConfigMapReference) × (m.status.config_map_ref ≡ some ref) × (ref.name ≡ name))
    ⊎ ((selector : ConfigMapSelector) × (m.spec.config_map_selector ≡ some selector)
        × (selector.name ≡ name))

-- The key of a monitor.
abbrev pub key_of_monitor : CollectorMonitor → ObjectKey
key_of_monitor m = record { namespace = m.namespace; name = m.name }

concerned : Text → CollectorMonitor → Bool
concerned name m =
    names_ref m.status.config_map_ref name || names_selector m.spec.config_map_selector name

names_ref_iff :
    (o : Option ConfigMapReference) (name : Text)
    → (names_ref o name ≡ true) ↔ ((ref : ConfigMapReference) × (o ≡ some ref) × (ref.name ≡ name))
names_ref_iff none name = ((λ h. absurd cc), (λ h. absurd cc))
names_ref_iff (some ref) name =
    ((λ h. (ref, refl, (==_iff ref.name name).0 h)), (λ (r, e, h). (==_iff ref.name name).1 cc))

names_selector_iff :
    (o : Option ConfigMapSelector) (name : Text)
    → (names_selector o name ≡ true)
      ↔ ((selector : ConfigMapSelector) × (o ≡ some selector) × (selector.name ≡ name))
names_selector_iff none name = ((λ h. absurd cc), (λ h. absurd cc))
names_selector_iff (some selector) name = (
  (λ h. (selector, refl, (==_iff selector.name name).0 h)),
  (λ (r, e, h). (==_iff selector.name name).1 cc),
)

or_iff :
    {P Q : Type 0} (a b : Bool) → ((a ≡ true) ↔ P) → ((b ≡ true) ↔ Q) → ((a || b) ≡ true) ↔ (P ⊎ Q)
or_iff a b h k = ground (arith, h, k)

concerned_iff : (name : Text) (m : CollectorMonitor) → (concerned name m ≡ true) ↔ Concerns name m
unfolding concerned
concerned_iff name m =
    or_iff (names_ref m.status.config_map_ref name) (names_selector m.spec.config_map_selector name)
      (names_ref_iff m.status.config_map_ref name)
      (names_selector_iff m.spec.config_map_selector name)

requests_for-eq-select :
    (name : Text) (ms : List CollectorMonitor)
    → requests_for name ms ≡ map key_of_monitor (select (concerned name) ms)
unfolding requests_for concerned
requests_for-eq-select name [] = refl
requests_for-eq-select name (m ∷ ms) = ground (arith, requests_for-eq-select name ms)

-- A changed config map wakes exactly the monitors listed in its namespace that concern it, by their
-- status or by their specification, each once and in the order of the list. If the listing fails, it
-- wakes none. Either way no error is returned, and the controller's own state stays as it is.
pub map_config_map_to_monitors_wakes :
    {env : Env} (cm : ConfigMap) (w : World env) (s : env.cluster.State)
    → ((ms : List CollectorMonitor)
        → env.cluster.list_monitors cm.namespace w.cluster ≡ (inr ms, s)
        → (concerned : CollectorMonitor → Bool) × ((m : CollectorMonitor)
            → (concerned m ≡ true) ↔ Concerns cm.name m)
          × (map_config_map_to_monitors cm w
              ≡ (ok (map key_of_monitor (select concerned ms)), record w { cluster = s })))
      × ((e : GoError)
          → env.cluster.list_monitors cm.namespace w.cluster ≡ (inl e, s)
          → map_config_map_to_monitors cm w ≡ (ok [], record w { cluster = s }))
unfolding map_config_map_to_monitors
map_config_map_to_monitors_wakes cm w s = (
  (λ ms h. (concerned cm.name, concerned_iff cm.name, rw (h, requests_for-eq-select cm.name ms))),
  (λ e h. rw h),
)
