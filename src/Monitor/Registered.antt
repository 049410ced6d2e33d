-- ===== src/Monitor/Registered.antt =====
-- What the scheme of cmd/operator/main.go knows, by `AddToScheme` of
-- operator/api/v1alpha1/collectormonitor_types.go.
use collectorctrl_k8s_code.Common.{none, ◌≡◌, text, ok}
use collectorctrl_k8s_code.Monitor.Scheme.{
  SchemeLib, SchemeLaws, collector_monitor, collector_monitor_list, with_kind, group_version,
  add_types, add_to_scheme, init_scheme,
}

module _ (lib : SchemeLib) where
  -- The two types of the operator, each under its kind.
  abbrev pub KnowsBoth : lib.Scheme → Type 0
  KnowsBoth s =
      lib.knows s (with_kind (text "CollectorMonitor")) collector_monitor
      × lib.knows s (with_kind (text "CollectorMonitorList")) collector_monitor_list

module _ (lib : SchemeLib) (laws : SchemeLaws lib) where
  add_types-KnowsBoth : (s : lib.Scheme) → KnowsBoth lib (add_types lib s).1
  unfolding add_types
  add_types-KnowsBoth s =
      let one = lib.add_known_type (with_kind (text "CollectorMonitor")) collector_monitor s in
      let list = with_kind (text "CollectorMonitorList") in
      let two = lib.add_known_type list collector_monitor_list one in
      (
        laws.versioned _ _ group_version two (
            laws.kept _ list _ collector_monitor_list one
              (laws.added (with_kind (text "CollectorMonitor")) collector_monitor s)),
        laws.versioned list collector_monitor_list group_version two
            (laws.added list collector_monitor_list one),
      )

  -- If client-go adds its own types without an error, the program starts with a scheme that knows
  -- the custom resource and its list under their kinds of collectorctrl.io/v1alpha1.
  pub init_scheme-KnowsBoth :
      (s : lib.Scheme)
      → lib.add_client_go lib.new_scheme ≡ (none, s)
      → (t : lib.Scheme) × (init_scheme lib ≡ ok t) × KnowsBoth lib t
  unfolding init_scheme add_to_scheme
  init_scheme-KnowsBoth s client =
      let run = laws.register_run (add_types lib) lib.empty_builder s s (laws.empty_run s) in
      ((add_types lib s).1, rw (client, run), add_types-KnowsBoth s)
