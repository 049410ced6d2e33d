-- ===== src/Monitor/Memory.antt =====
-- The copies of operator/api/v1alpha1/collectormonitor_types.go, on Go's memory: a pointer is a place
-- in a list of objects, a slice a place of an array and a length. What no code writes in place is
-- given by its contents: the specification, and what the other pointers of the status lead to.
use collectorctrl_k8s_code.Common.{
  ℕ, zero, suc, Option, none, some, List, [], ◌∷◌, ◌++◌, ◌≡◌, Text, Assoc, Outcome, ok, err, panic,
  length, get_elem?,
}
use collectorctrl_k8s_code.Common.Places.{take}
use collectorctrl_k8s_code.Monitor.{
  CollectorMonitor, CollectorMonitorSpec, ConfigMapReference, Condition,
}

pub record TypeMeta : Type 0 where
  pub kind : Text
  pub api_version : Text

-- Of metav1.ObjectMeta, what the operator reads.
pub record ObjectMeta : Type 0 where
  pub name : Text
  pub namespace : Text
  pub labels : Option (Assoc Text)

pub record ListMeta : Type 0 where
  pub resource_version : Text

pub record Slice : Type 0 where
  pub array : ℕ
  pub len : ℕ

-- A status; its conditions are a slice, which may be nil.
pub record StatusObject : Type 0 where
  pub phase : Text
  pub last_heartbeat : Option ℕ
  pub agent_count : ℕ
  pub healthy_agents : ℕ
  pub config_map_ref : Option ConfigMapReference
  pub conditions : Option Slice

pub record MonitorObject : Type 0 where
  pub type_meta : TypeMeta
  pub object_meta : ObjectMeta
  pub spec : CollectorMonitorSpec
  pub status : StatusObject

pub record ListObject : Type 0 where
  pub type_meta : TypeMeta
  pub list_meta : ListMeta
  pub items : Option Slice

pub record Memory : Type 0 where
  pub condition_arrays : List (List Condition)
  pub monitor_arrays : List (List MonitorObject)
  pub monitors : List MonitorObject
  pub lists : List ListObject

abbrev pub cells {ℓ} : {A : Type ℓ} → ℕ → Option (List A) → List A
cells n none = []
cells n (some a) = take n a

-- What the places from the first to the last of a slice hold.
abbrev pub contents {ℓ} : {A : Type ℓ} → List (List A) → Option Slice → List A
contents arrays none = []
contents arrays (some s) = cells s.len (get_elem? arrays s.array)

-- The object as a value.
unfoldable pub value_of : List (List Condition) → MonitorObject → CollectorMonitor
value_of arrays o = record {
  name = o.object_meta.name;
  namespace = o.object_meta.namespace;
  labels = o.object_meta.labels;
  spec = o.spec;
  status = record {
    phase = o.status.phase;
    last_heartbeat = o.status.last_heartbeat;
    agent_count = o.status.agent_count;
    healthy_agents = o.status.healthy_agents;
    config_map_ref = o.status.config_map_ref;
    conditions = contents arrays o.status.conditions;
  };
}

-- `DeepCopyInto` of the two kinds of metadata, from the API machinery.
pub record MetaLib : Type 0 where
  pub copy_object_meta : ObjectMeta → ObjectMeta
  pub copy_list_meta : ListMeta → ListMeta

-- The documented behaviour of both: the copy has the same contents.
pub record CopiesMeta (lib : MetaLib) : Type 0 where
  pub object_meta : (m : ObjectMeta) → lib.copy_object_meta m ≡ m
  pub list_meta : (m : ListMeta) → lib.copy_list_meta m ≡ m

abbrev zero_spec : CollectorMonitorSpec
zero_spec = record {
  workload_selector = record { match_labels = []; kind = []; name = [] };
  config_map_selector = none;
  opamp_server = [];
  auth = record { secret_ref = none };
  health_check = record { enabled = none; interval = 0; metrics_port = 0 };
  drift_detection = record { enabled = none; interval = 0 };
  emergency_mode = record { enabled = none };
  enrich_with_node_metadata = none;
}

-- `new(CollectorMonitor)`
abbrev pub zero_monitor : MonitorObject
zero_monitor = record {
  type_meta = record { kind = []; api_version = [] };
  object_meta = record { name = []; namespace = []; labels = none };
  spec = zero_spec;
  status = record {
    phase = [];
    last_heartbeat = none;
    agent_count = 0;
    healthy_agents = 0;
    config_map_ref = none;
    conditions = none;
  };
}

-- `new(CollectorMonitorList)`
abbrev pub zero_list : ListObject
zero_list = record {
  type_meta = record { kind = []; api_version = [] };
  list_meta = record { resource_version = [] };
  items = none;
}

-- `make([]CollectorMonitor, n)`
unfoldable pub make_items : ℕ → List MonitorObject
make_items zero = []
make_items (suc n) = zero_monitor ∷ make_items n

-- What `new` gives back: the place of the object.
abbrev new_monitor : MonitorObject → Memory → Outcome (Option ℕ) × Memory
new_monitor o mem =
    (ok (some (length mem.monitors)), record mem { monitors = mem.monitors ++ o ∷ [] })

abbrev new_list : ListObject → Memory → Outcome (Option ℕ) × Memory
new_list l mem = (ok (some (length mem.lists)), record mem { lists = mem.lists ++ l ∷ [] })

module _ (lib : MetaLib) where
  -- `in.DeepCopyInto(out)`: every field of `out` is written.
  unfoldable pub copy_into : MonitorObject → MonitorObject → MonitorObject
  copy_into from out = record out {
    type_meta = from.type_meta;
    object_meta = lib.copy_object_meta from.object_meta;
    spec = from.spec;
    status = from.status;
  }

  copy_found : Option MonitorObject → Memory → Outcome (Option ℕ) × Memory
  unfolding copy_into
  copy_found none mem = (panic, mem)
  copy_found (some from) mem = new_monitor (copy_into from zero_monitor) mem

  -- `DeepCopy`; nil is copied to nil, and a place with no object is a bad pointer.
  unfoldable pub deep_copy : Option ℕ → Memory → Outcome (Option ℕ) × Memory
  unfolding copy_found
  deep_copy none mem = (ok none, mem)
  deep_copy (some p) mem = copy_found (get_elem? mem.monitors p) mem

  -- The loop over the items.
  unfoldable pub copy_items : List MonitorObject → List MonitorObject → List MonitorObject
  unfolding copy_into
  copy_items (from ∷ rest) (out ∷ outs) = copy_into from out ∷ copy_items rest outs
  copy_items [] outs = outs
  copy_items (from ∷ rest) [] = []

  copy_slice : Option Slice → ListObject → Memory → ListObject × Memory
  unfolding copy_items make_items
  copy_slice none out mem = (out, mem)
  copy_slice (some s) out mem =
      let items = copy_items (contents mem.monitor_arrays (some s)) (make_items s.len) in
      (
        record out { items = some (record { array = length mem.monitor_arrays; len = s.len }) },
        record mem { monitor_arrays = mem.monitor_arrays ++ items ∷ [] },
      )

  -- `in.DeepCopyInto(out)` of a list; with nil items, those of `out` stay.
  unfoldable pub list_copy_into : ListObject → ListObject → Memory → ListObject × Memory
  unfolding copy_slice
  list_copy_into from out mem =
      copy_slice from.items
        (record out { type_meta = from.type_meta; list_meta = lib.copy_list_meta from.list_meta })
        mem

  copy_found_list : Option ListObject → Memory → Outcome (Option ℕ) × Memory
  unfolding list_copy_into
  copy_found_list none mem = (panic, mem)
  copy_found_list (some from) mem =
      let (out, mem') = list_copy_into from zero_list mem in new_list out mem'

  unfoldable pub list_deep_copy : Option ℕ → Memory → Outcome (Option ℕ) × Memory
  unfolding copy_found_list
  list_deep_copy none mem = (ok none, mem)
  list_deep_copy (some p) mem = copy_found_list (get_elem? mem.lists p) mem

-- A `runtime.Object`: nil, or a value of one of the two pointer types, which may itself be nil.
pub data RuntimeObject : Type 0 where
  no_object : RuntimeObject
  monitor_pointer list_pointer : Option ℕ → RuntimeObject

abbrev object_of : (Option ℕ → RuntimeObject) → Outcome (Option ℕ) → Outcome RuntimeObject
object_of pointer (ok none) = ok no_object
object_of pointer (ok (some p)) = ok (pointer (some p))
object_of pointer (err e) = err e
object_of pointer panic = panic

module _ (lib : MetaLib) where
  unfoldable pub deep_copy_object : Option ℕ → Memory → Outcome RuntimeObject × Memory
  deep_copy_object p mem =
      let (r, mem') = deep_copy lib p mem in (object_of monitor_pointer r, mem')

  unfoldable pub list_deep_copy_object : Option ℕ → Memory → Outcome RuntimeObject × Memory
  list_deep_copy_object p mem =
      let (r, mem') = list_deep_copy lib p mem in (object_of list_pointer r, mem')
