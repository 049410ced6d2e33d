-- ===== src/Controller/Reporting.antt =====
-- The health report and the cleanup of
-- operator/controllers/collectormonitor_controller.go come to an end.
use collectorctrl_k8s_code.Common.{
  ℕ, Option, none, some, ◌≡◌, ◌≢◌, refl, sym, subst, Text, Assoc, GoError, get_elem?, lookup,
}
use collectorctrl_k8s_code.Monitor.{CollectorMonitor, ConfigMapReference}
use collectorctrl_k8s_code.Opamp.{Client}
use collectorctrl_k8s_code.Opamp.Session.{set_effective_config}
use collectorctrl_k8s_code.Controller.Cluster.{Workload}
use collectorctrl_k8s_code.Controller.Action.{
  Env, World, ClientObject, Captured, update_client, call_client,
}
use collectorctrl_k8s_code.Controller.Connection.{connection_key, cleanup_at, cleanup_opamp_client}
use collectorctrl_k8s_code.Controller.Connecting.{update_client-run, call_client-run}
use collectorctrl_k8s_code.Controller.Consistency.{Memory, memory_of}
use collectorctrl_k8s_code.Controller.Connected.{IsOrderly}
use collectorctrl_k8s_code.Controller.Ownership.{cleanup_at-Forgets}
use collectorctrl_k8s_code.Controller.Keeping.{attempt-Keeps, in_context-Keeps}
use collectorctrl_k8s_code.Controller.Refining.{memory_reads, memory_calls}
use collectorctrl_k8s_code.Controller.Discovery.{contents_of}
use collectorctrl_k8s_code.Controller.Fleet.{
  report_fleet_health, report_to, report_pods, report_config, report_config_from,
}
use collectorctrl_k8s_code.Controller.Selected.{HasSelector}
use collectorctrl_k8s_code.Controller.Ending.{
  Always, EndsWell, Ends, pure-Ends, attempt-Ends, in_context-Ends, ask-Ends, sum-Ends, bind-Ends,
  failed-EndsWell,
}

-- A client object is at the place.
record Holds {Conn : Type 0} (p : ℕ) (m : Memory Conn) : Type 0 where
  client : Client Conn Captured
  at : get_elem? m.store p ≡ some client

module _ {env : Env} where
  abbrev Holding : ℕ → World env → Type 0
  Holding p w = Holds p (memory_of w)

  call_client-Ends :
      (p : ℕ) (method : ClientObject env → env.lib.State → Option GoError × env.lib.State)
      → Ends (Holding p) Always Always (call_client p method)
  call_client-Ends p method = record {
    ends = λ w h.
        subst (λ r. EndsWell Always Always r.0) (sym (call_client-run p h.client method w h.at))
          (failed-EndsWell (method h.client w.lib).0);
  }

  update_client-Ends :
      (p : ℕ)
      (method : ClientObject env
        → env.lib.State
        → Option GoError × ClientObject env × env.lib.State)
      → Ends (Holding p) Always Always (update_client p method)
  update_client-Ends p method = record {
    ends = λ w h.
        subst (λ r. EndsWell Always Always r.0) (sym (update_client-run p h.client method w h.at))
          (failed-EndsWell (method h.client w.lib).0);
  }

  report_config_from-Ends :
      (p : ℕ) (key : Text) (yaml : Option Text)
      → Ends (Holding p) Always Always (report_config_from {env = env} p key yaml)
  unfolding report_config_from
  report_config_from-Ends p key none = pure-Ends tt tt
  report_config_from-Ends p key (some yaml) =
      in_context-Ends _ (update_client-Ends p (set_effective_config env.lib yaml))

  report_config-Ends :
      (p : ℕ) (ref : Option ConfigMapReference)
      → Ends (Holding p) Always Always (report_config {env = env} p ref)
  unfolding report_config
  report_config-Ends p none = pure-Ends tt tt
  report_config-Ends p (some ref) =
      bind-Ends (attempt-Keeps ((memory_reads (Holds p)).config_map _)) (attempt-Ends (ask-Ends _))
        λ found h.
          sum-Ends found h (λ e. pure-Ends tt tt)
            (λ cm _. report_config_from-Ends p ref.key (lookup ref.key (contents_of cm)))

  report_pods-Ends :
      (p : ℕ) (m : CollectorMonitor) (selector : Option (Assoc Text))
      → selector ≢ none
      → Ends (Holding p) Always Always (report_pods {env = env} p m selector)
  unfolding report_pods
  report_pods-Ends p m none h = absurd (h refl)
  report_pods-Ends p m (some selector) h =
      bind-Ends ((memory_reads (Holds p)).pods selector m.namespace) (ask-Ends _) λ pods _.
        bind-Ends (in_context-Keeps _ ((memory_calls (Holds p)).method p _))
          (in_context-Ends _ (call_client-Ends p _))
          λ _ _. report_config-Ends p m.status.config_map_ref

  report_to-Ends :
      (m : CollectorMonitor) (wl : Workload) (found : Option ℕ) (w : World env)
      → HasSelector wl
      → ((p : ℕ) → found ≡ some p → Holding p w)
      → EndsWell Always Always (report_to {env = env} found m wl w).0
  unfolding report_to
  report_to-Ends m wl none w h k = tt
  report_to-Ends m wl (some p) w h k = (report_pods-Ends p m wl.selector h.set).ends w (k p refl)

  -- The client of a key, in a consistent state, is in the store.
  held :
      (key : Text) (p : ℕ) (w : World env)
      → IsOrderly w
      → lookup key w.opamp_clients ≡ some p
      → Holding p w
  held key p w h e = let (c, at, s) = h.served key p e in record { client = c; at = at }

  pub report_fleet_health-Ends :
      (m : CollectorMonitor) (wl : Workload)
      → HasSelector wl
      → Ends IsOrderly Always Always (report_fleet_health {env = env} m wl)
  unfolding report_fleet_health
  report_fleet_health-Ends m wl h = record {
    ends = λ w o.
        let key = connection_key m.namespace m.name in
        report_to-Ends m wl (lookup key w.opamp_clients) w h (λ p e. held key p w o e);
  }

  cleanup_at-Ends : (key : Text) → Ends IsOrderly Always Always (cleanup_at {env = env} key)
  cleanup_at-Ends key = record {
    ends = λ w h.
        let (v, run, forgets, closes) = cleanup_at-Forgets key w h in
        subst (λ r. EndsWell Always Always r.0) (sym run) tt;
  }

  pub cleanup_opamp_client-Ends :
      (ns name : Text) → Ends IsOrderly Always Always (cleanup_opamp_client {env = env} ns name)
  unfolding cleanup_opamp_client
  cleanup_opamp_client-Ends ns name = cleanup_at-Ends (connection_key ns name)
