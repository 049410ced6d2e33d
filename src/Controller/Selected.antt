-- ===== src/Controller/Selected.antt =====
-- The discovery of operator/controllers/collectormonitor_controller.go comes to an end, and what it
-- finds has a selector, as Kubernetes demands of every workload.
use collectorctrl_k8s_code.Common.{
  ◌==◌, Option, none, some, List, [], ◌∷◌, ◌≢◌, inl, inr, Text, Assoc, ◌⊎◌, GoError, All,
  Bool-cases,
}
use collectorctrl_k8s_code.Monitor.{CollectorMonitor, ConfigMapSelector, WorkloadSelector}
use collectorctrl_k8s_code.Controller.Cluster.{Workload, WorkloadKind, Cluster}
use collectorctrl_k8s_code.Controller.Action.{Env, World, Act, ask, answered}
use collectorctrl_k8s_code.Controller.Steps.{KeepsReads}
use collectorctrl_k8s_code.Controller.Discovery.{
  discover_among, discover_workload, discover_config_map, named_config_map, first_fit, name_fits,
  return_or, kinds, no_auto_discovery,
}
use collectorctrl_k8s_code.Controller.Ending.{
  Always, EndsWell, Ends, ask-Ends, raise-Ends, if-Ends, bind-Ends,
}

-- `spec.selector` is set.
pub record HasSelector (w : Workload) : Type 0 where
  pub set : w.selector ≢ none

-- Of an answer with a list of workloads, every one has a selector.
abbrev pub AllHaveSelectors : GoError ⊎ List Workload → Type 0
AllHaveSelectors (inl e) = Unit
AllHaveSelectors (inr ws) = All HasSelector ws

-- The API server takes no workload without a selector, so it lists none.
abbrev pub ListsSelectors : Cluster → Type 0
ListsSelectors cluster =
    (kind : WorkloadKind) (labels : Assoc Text) (ns : Text) (s : cluster.State)
    → AllHaveSelectors (cluster.list_workloads kind labels ns s).0

abbrev pub IsSelected : Option Workload → Type 0
IsSelected none = Unit
IsSelected (some w) = HasSelector w

first_fit-IsSelected :
    (selector : WorkloadSelector) (ws : List Workload)
    → All HasSelector ws
    → IsSelected (first_fit selector ws)
unfolding first_fit
first_fit-IsSelected selector [] h = tt
first_fit-IsSelected selector (w ∷ ws) h = elim (Bool-cases (name_fits selector w)) [
  | inl b ↦ rw b h.0
  | inr b ↦ rw b (first_fit-IsSelected selector ws h.1)
]

listed-EndsWell :
    (r : GoError ⊎ List Workload)
    → AllHaveSelectors r
    → EndsWell Always (All HasSelector) (answered r)
listed-EndsWell (inl e) h = tt
listed-EndsWell (inr ws) h = h

module _ {env : Env} where
  returned-Ends :
      {I : World env → Type 0} (found : Option Workload) {later : Act env Workload}
      → IsSelected found
      → Ends I Always HasSelector later
      → Ends I Always HasSelector (return_or later found)
  returned-Ends none h k = k
  returned-Ends (some w) h k = record { ends = λ v _. h }

module _ {env : Env} {I : World env → Type 0} (reads : KeepsReads I)
    (show_selector : WorkloadSelector → Text) (lists : ListsSelectors env.cluster) where
  listed-Ends :
      (kind : WorkloadKind) (labels : Assoc Text) (ns : Text)
      → Ends I Always (All HasSelector) (ask (env.cluster.list_workloads kind labels ns))
  listed-Ends kind labels ns = record {
    ends = λ w _.
        listed-EndsWell (env.cluster.list_workloads kind labels ns w.cluster).0
          (lists kind labels ns w.cluster);
  }

  discover_among-Ends :
      (m : CollectorMonitor) (ks : List WorkloadKind)
      → Ends I Always HasSelector (discover_among {env = env} show_selector m ks)
  unfolding discover_among
  discover_among-Ends m [] = raise-Ends _ tt
  discover_among-Ends m (k ∷ ks) =
      let selector = m.spec.workload_selector in
      if-Ends _
        (bind-Ends (reads.workloads k selector.match_labels m.namespace)
          (listed-Ends k selector.match_labels m.namespace)
          (λ found h.
            returned-Ends (first_fit selector found) (first_fit-IsSelected selector found h)
              (discover_among-Ends m ks)))
        (discover_among-Ends m ks)

  pub discover_workload-Ends :
      (m : CollectorMonitor)
      → Ends I Always HasSelector (discover_workload {env = env} show_selector m)
  unfolding discover_workload
  discover_workload-Ends m = discover_among-Ends m kinds

module _ {env : Env} {I : World env → Type 0} (reads : KeepsReads I) where
  named_config_map-Ends :
      (ns : Text) (selector : Option ConfigMapSelector)
      → Ends I Always Always (named_config_map {env = env} ns selector)
  unfolding named_config_map
  named_config_map-Ends ns none = raise-Ends _ tt
  named_config_map-Ends ns (some s) =
      if-Ends (s.name == []) (raise-Ends no_auto_discovery tt)
        (ask-Ends (env.cluster.get_config_map (record { namespace = ns; name = s.name })))

  pub discover_config_map-Ends :
      (m : CollectorMonitor) → Ends I Always Always (discover_config_map {env = env} m)
  unfolding discover_config_map
  discover_config_map-Ends m = named_config_map-Ends m.namespace m.spec.config_map_selector
