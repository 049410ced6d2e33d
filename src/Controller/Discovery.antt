-- ===== src/Controller/Discovery.antt =====
-- Finding the workload and the config map of a monitor, in
-- operator/controllers/collectormonitor_controller.go.
use collectorctrl_k8s_code.Common.{
  Bool, Option, none, some, List, [], ◌∷◌, ◌++◌, Text, text, ◌==◌, if◌then◌else◌, ◌||◌, Assoc,
  lookup, GoError, errorf,
}
use collectorctrl_k8s_code.Monitor.{CollectorMonitor, WorkloadSelector, ConfigMapSelector}
use collectorctrl_k8s_code.Controller.Cluster.{
  WorkloadKind, daemon_set, deployment, stateful_set, kind_name, Workload, ConfigMap,
}
use collectorctrl_k8s_code.Controller.Action.{Env, Act, pure, raise, ask, ◌>>=◌}

-- `selector.Name == "" || w.Name == selector.Name`
unfoldable pub name_fits : WorkloadSelector → Workload → Bool
name_fits selector w = selector.name == [] || w.name == selector.name

-- `selector.Kind == "" || selector.Kind == kind`
unfoldable pub kind_fits : WorkloadSelector → WorkloadKind → Bool
kind_fits selector kind = selector.kind == [] || selector.kind == kind_name kind

-- The first item of a list that the loop returns.
unfoldable pub first_fit : WorkloadSelector → List Workload → Option Workload
first_fit selector [] = none
first_fit selector (w ∷ ws) = if name_fits selector w then some w else first_fit selector ws

-- The error names the selector; `%+v` of it is a parameter.
unfoldable pub no_workload : (WorkloadSelector → Text) → WorkloadSelector → GoError
no_workload show_selector selector =
    errorf (text "no workload found matching selector: " ++ show_selector selector)

abbrev pub kinds : List WorkloadKind
kinds = daemon_set ∷ deployment ∷ stateful_set ∷ []

-- `return &w` for an item that fits, or what comes after the loop.
abbrev pub return_or : {env : Env} → Act env Workload → Option Workload → Act env Workload
return_or later none = later
return_or later (some w) = pure w

module _ {env : Env} (show_selector : WorkloadSelector → Text) where
  -- The three blocks of `discoverWorkload`, tried in order.
  unfoldable pub discover_among : CollectorMonitor → List WorkloadKind → Act env Workload
  discover_among monitor [] = raise (no_workload show_selector monitor.spec.workload_selector)
  discover_among monitor (kind ∷ rest) =
      let later = discover_among monitor rest in
      let selector = monitor.spec.workload_selector in
      if kind_fits selector kind
      then (do
        found ← ask (env.cluster.list_workloads kind selector.match_labels monitor.namespace)
        return_or later (first_fit selector found))
      else later

  -- The source returns the kind's name beside the object, which here carries its kind.
  unfoldable pub discover_workload : CollectorMonitor → Act env Workload
  unfolding discover_among
  discover_workload monitor = discover_among monitor kinds

abbrev pub no_auto_discovery : GoError
no_auto_discovery = errorf (text "configMap auto-discovery not yet implemented")

module _ {env : Env} where
  unfoldable pub named_config_map : Text → Option ConfigMapSelector → Act env ConfigMap
  named_config_map namespace none = raise no_auto_discovery
  named_config_map namespace (some selector) =
      if selector.name == []
      then raise no_auto_discovery
      else ask (env.cluster.get_config_map (record { namespace = namespace; name = selector.name }))

  unfoldable pub discover_config_map : CollectorMonitor → Act env ConfigMap
  unfolding named_config_map
  discover_config_map monitor = named_config_map monitor.namespace monitor.spec.config_map_selector

abbrev pub contents_of : ConfigMap → Assoc Text
contents_of cm = elim cm.contents [ none ↦ [] | some m ↦ m ]

-- The first of some keys that the config map holds, or the default.
unfoldable pub detect_key : List Text → Assoc Text → Text
detect_key [] m = text "config.yaml"
detect_key (key ∷ keys) m = elim (lookup key m) [ some v ↦ key | none ↦ detect_key keys m ]

abbrev pub common_keys : List Text
common_keys = text "relay.yaml" ∷ text "config.yaml" ∷ text "otelcol.yaml" ∷ []

key_of : Option ConfigMapSelector → ConfigMap → Text
key_of none cm = detect_key common_keys (contents_of cm)
key_of (some selector) cm =
    if selector.key == [] then detect_key common_keys (contents_of cm) else selector.key

unfoldable pub config_map_key : CollectorMonitor → ConfigMap → Text
unfolding key_of
config_map_key monitor cm = key_of monitor.spec.config_map_selector cm
