-- ===== src/Monitor/Scheme.antt =====
-- `AddToScheme` of operator/api/v1alpha1/collectormonitor_types.go. The scheme and its builder belong
-- to the API machinery.
use collectorctrl_k8s_code.Common.{Option, none, some, ◌≡◌, Text, text, GoError, Outcome, ok, panic}

pub record GroupVersion : Type 0 where
  pub group : Text
  pub version : Text

pub record Kind : Type 0 where
  pub group_version : GroupVersion
  pub kind : Text

-- The Go types that the scheme is told.
pub data GoType : Type 0 where
  collector_monitor collector_monitor_list : GoType

-- `SchemeBuilder` is a variable of the package: `Register` changes it.
pub record SchemeLib : Type 1 where
  pub Scheme : Type 0
  pub Builder : Type 0
  pub new_scheme : Scheme
  pub empty_builder : Builder
  pub register : (Scheme → Option GoError × Scheme) → Builder → Builder
  pub run_builder : Builder → Scheme → Option GoError × Scheme
  pub add_known_type : Kind → GoType → Scheme → Scheme
  pub add_to_group_version : GroupVersion → Scheme → Scheme
  -- client-go's own types
  pub add_client_go : Scheme → Option GoError × Scheme
  pub knows : Scheme → Kind → GoType → Type 0

-- What the API machinery documents: a builder runs its functions in the order in which they were
-- registered, up to the first error; a scheme knows a type that was added, and goes on to know it.
pub record SchemeLaws (lib : SchemeLib) : Type 0 where
  pub empty_run : (s : lib.Scheme) → lib.run_builder lib.empty_builder s ≡ (none, s)
  pub register_run :
      (f : lib.Scheme → Option GoError × lib.Scheme) (b : lib.Builder) (s t : lib.Scheme)
      → lib.run_builder b s ≡ (none, t)
      → lib.run_builder (lib.register f b) s ≡ f t
  pub added : (k : Kind) (g : GoType) (s : lib.Scheme) → lib.knows (lib.add_known_type k g s) k g
  pub kept :
      (j k : Kind) (g h : GoType) (s : lib.Scheme)
      → lib.knows s j g
      → lib.knows (lib.add_known_type k h s) j g
  pub versioned :
      (j : Kind) (g : GoType) (v : GroupVersion) (s : lib.Scheme)
      → lib.knows s j g
      → lib.knows (lib.add_to_group_version v s) j g

abbrev pub group_version : GroupVersion
group_version = record { group = text "collectorctrl.io"; version = text "v1alpha1" }

-- `GroupVersion.WithKind`
abbrev pub with_kind : Text → Kind
with_kind kind = record { group_version = group_version; kind = kind }

module _ (lib : SchemeLib) where
  -- The function that `AddToScheme` registers.
  unfoldable pub add_types : lib.Scheme → Option GoError × lib.Scheme
  add_types s =
      let one = lib.add_known_type (with_kind (text "CollectorMonitor")) collector_monitor s in
      let two =
        lib.add_known_type (with_kind (text "CollectorMonitorList")) collector_monitor_list one in
      (none, lib.add_to_group_version group_version two)

  -- It registers its function, and runs all that were registered; each call registers it anew.
  unfoldable pub add_to_scheme :
      lib.Builder → lib.Scheme → Option GoError × lib.Scheme × lib.Builder
  unfolding add_types
  add_to_scheme b s =
      let b' = lib.register add_types b in let (e, t) = lib.run_builder b' s in (e, t, b')

  -- `utilruntime.Must`
  abbrev pub must : {A : Type 0} → Option GoError → A → Outcome A
  must none a = ok a
  must (some e) a = panic

  -- `init` of cmd/operator/main.go.
  abbrev pub add_own : Option GoError → lib.Scheme → Outcome lib.Scheme
  add_own none s = let (e, t, b) = add_to_scheme lib.empty_builder s in must e t
  add_own (some e) s = panic

  unfoldable pub init_scheme : Outcome lib.Scheme
  unfolding add_to_scheme
  init_scheme = let (e, s) = lib.add_client_go lib.new_scheme in add_own e s
