-- ===== src/Controller/Complete.antt =====
-- A reconciliation of operator/controllers/collectormonitor_controller.go takes one of the courses.
use collectorctrl_k8s_code.Common.{
  ◌≡◌, ◌≢◌, refl, ◌⊎◌, inl, inr, Text, GoError, Outcome, ok, err, panic,
}
use collectorctrl_k8s_code.Monitor.{CollectorMonitor, WorkloadSelector}
use collectorctrl_k8s_code.Controller.Cluster.{Workload, ConfigMap, ObjectKey}
use collectorctrl_k8s_code.Controller.Action.{Env, World}
use collectorctrl_k8s_code.Controller.Discovery.{discover_workload, discover_config_map}
use collectorctrl_k8s_code.Controller.Connection.{ensure_opamp_connection}
use collectorctrl_k8s_code.Controller.Fleet.{report_fleet_health}
use collectorctrl_k8s_code.Controller.Reconcile.{
  reconcile, check_drift, with_reference, ReconcileResult,
}
use collectorctrl_k8s_code.Controller.Connected.{IsOrderly, IsOrderly-reads, IsOrderly-effects}
use collectorctrl_k8s_code.Controller.Steps.{
  discover_workload-Keeps, discover_config_map-Keeps, report_fleet_health-Keeps,
}
use collectorctrl_k8s_code.Controller.Running.{Reachable, Reachable-IsOrderly}
use collectorctrl_k8s_code.Controller.Ending.{Always, EndsWell, OnSuccess}
use collectorctrl_k8s_code.Controller.Selected.{
  HasSelector, ListsSelectors, discover_workload-Ends, discover_config_map-Ends,
}
use collectorctrl_k8s_code.Controller.Reporting.{report_fleet_health-Ends}
use collectorctrl_k8s_code.Controller.Checking.{ensure-Ends, check_drift-Ends}
use collectorctrl_k8s_code.Controller.Courses.{
  Course, undiscovered, unresolved, unconnected, watched, activated, reconcile-Course,
}

module _ {A : Type 0} where
  pub EndsWell-cases :
      {B : Type 0} (P : A → Type 0) (r : Outcome A) (v : B)
      → EndsWell Always P r
      → ((a : A) × ◌≡◌ {A = Outcome A × B} (r, v) (ok a, v) × P a)
        ⊎ ((e : GoError) × ◌≡◌ {A = Outcome A × B} (r, v) (err e, v))
  EndsWell-cases P (ok a) v h = inl (a, refl, h)
  EndsWell-cases P (err e) v h = inr (e, refl)
  EndsWell-cases P panic v h = absurd h

  EndsWell-ne_panic :
      (E : GoError → Type 0) (P : A → Type 0) (r : Outcome A) → EndsWell E P r → r ≢ panic
  EndsWell-ne_panic E P (ok a) h = λ e. cc
  EndsWell-ne_panic E P (err x) h = λ e. cc
  EndsWell-ne_panic E P panic h = absurd h

  -- With no error allowed, there is a value.
  certain :
      {B : Type 0} (P : A → Type 0) (r : Outcome A) (v : B)
      → EndsWell (λ _. ⊥) P r
      → (a : A) × ◌≡◌ {A = Outcome A × B} (r, v) (ok a, v)
  certain P (ok a) v h = (a, refl)
  certain P (err e) v h = absurd h
  certain P panic v h = absurd h

module _ {env : Env} (lists : ListsSelectors env.cluster) (show_selector : WorkloadSelector → Text)
    (quote : Text → Text) (m : CollectorMonitor) (w : World env) where
  abbrev Runs : Type 0
  Runs = (o : Outcome ReconcileResult × World env) × Course show_selector quote m w o

  watched-Runs :
      (wl : Workload) (v : World env) (cm : ConfigMap) (u t : World env)
      → HasSelector wl
      → IsOrderly t
      → discover_workload show_selector m w ≡ (ok wl, v)
      → discover_config_map m v ≡ (ok cm, u)
      → ensure_opamp_connection (with_reference m cm) wl u ≡ (ok tt, t)
      → Runs
  watched-Runs wl v cm u t s i h k l =
      let n = with_reference m cm in
      let (r, x) = report_fleet_health n wl t in
      let ended = (report_fleet_health-Ends n wl s).ends t i in
      let j = (report_fleet_health-Keeps IsOrderly-reads IsOrderly-effects.reports n wl).keep t i in
      let (o, y) = check_drift show_selector quote n cm x in
      let (d, checked) =
        certain (OnSuccess Always) o y
          ((check_drift-Ends {E = λ _. ⊥} show_selector quote n cm (λ e. cc)).ends x j) in
      (
        activated n y,
        watched wl v cm u t x y r d h k l refl (EndsWell-ne_panic Always Always r ended) checked,
      )

  connected-Runs :
      (wl : Workload) (v : World env) (cm : ConfigMap) (u : World env)
      → HasSelector wl
      → IsOrderly u
      → discover_workload show_selector m w ≡ (ok wl, v)
      → discover_config_map m v ≡ (ok cm, u)
      → Runs
  connected-Runs wl v cm u s i h k =
      let n = with_reference m cm in
      let (r, t) = ensure_opamp_connection n wl u in
      elim (EndsWell-cases Always r t ((ensure-Ends IsOrderly-reads n wl (λ e. cc)).ends u i)) [
        | inl (_, l, _) ↦
            watched-Runs wl v cm u t s ((IsOrderly-effects.ensure n wl).keep u i) h k l
        | inr (e, l) ↦ (_, unconnected wl v cm u e t h k l)
      ]

  resolved-Runs :
      (wl : Workload) (v : World env)
      → HasSelector wl
      → IsOrderly v
      → discover_workload show_selector m w ≡ (ok wl, v)
      → Runs
  resolved-Runs wl v s i h =
      let (r, u) = discover_config_map m v in
      elim (EndsWell-cases Always r u ((discover_config_map-Ends IsOrderly-reads m).ends v i)) [
        | inl (cm, k, _) ↦
            connected-Runs wl v cm u s ((discover_config_map-Keeps IsOrderly-reads m).keep v i) h k
        | inr (e, k) ↦ (_, unresolved wl v e u h k)
      ]

  discovered-Runs : IsOrderly w → Runs
  discovered-Runs i =
      let (r, v) = discover_workload show_selector m w in
      elim (EndsWell-cases HasSelector r v
        ((discover_workload-Ends IsOrderly-reads show_selector lists m).ends w i)) [
          | inl (wl, h, s) ↦
              resolved-Runs wl v s
                ((discover_workload-Keeps IsOrderly-reads show_selector m).keep w i) h
          | inr (e, h) ↦ (_, undiscovered e v h)
        ]

module _ {env : Env} (lists : ListsSelectors env.cluster) (show_selector : WorkloadSelector → Text)
    (quote : Text → Text) where
  -- If the cluster lists no workload without a selector, then in every state that the controller
  -- reaches, the reconciliation of a monitor that it fetches takes one of four courses: it reads the
  -- clock and asks to be called again after 30 seconds if there is no workload or no config map, or
  -- after 10 if the connection fails; otherwise, whatever its health check is set to, it reports,
  -- checks for drift, whatever those two return, and updates the status to Active once, to be called
  -- again after 60 seconds unless that update fails.
  pub reconcile_complete :
      (w : World env)
      → Reachable show_selector quote w
      → (req : ObjectKey) (m : CollectorMonitor) (s : env.cluster.State)
      → env.cluster.get_monitor req w.cluster ≡ (inr m, s)
      → (o : Outcome ReconcileResult × World env) × Course show_selector quote m
          (record w { cluster = s })
          o
        × (reconcile show_selector quote req w ≡ o)
  reconcile_complete w r req m s fetched =
      let i = Reachable-IsOrderly show_selector quote w r in
      let (o, c) = discovered-Runs lists show_selector quote m (record w { cluster = s }) i in
      (o, c, reconcile-Course show_selector quote req w m s fetched o c)
