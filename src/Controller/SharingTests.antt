-- ===== src/Controller/SharingTests.antt =====
-- The theorem on shared conditions, at an object with one condition.
use collectorctrl_k8s_code.Common.{
  ℕ, none, some, List, [], ◌∷◌, ◌≡◌, refl, text, ok, get_elem?, if◌then◌else◌, arith,
}
use collectorctrl_k8s_code.Monitor.{Condition}
use collectorctrl_k8s_code.Monitor.Memory.{
  MonitorObject, Memory, MetaLib, CopiesMeta, value_of, deep_copy,
}
use collectorctrl_k8s_code.Controller.Status.{put_condition, with_conditions}
use collectorctrl_k8s_code.Controller.InPlace.{set_condition_at}
use collectorctrl_k8s_code.Controller.Sharing.{has_type, copy_shares}
use collectorctrl_k8s_code.Controller.Simulated.{spec}

abbrev active : Condition
active = record {
  type = text "Active";
  status = text "True";
  observed_generation = 0;
  last_transition_time = 1;
  reason = text "ActiveSucceeded";
  message = text "Monitoring collector fleet";
}

abbrev inactive : Condition
inactive = record active {
  status = text "False";
  last_transition_time = 2;
  reason = text "ActiveFailed";
}

abbrev object : MonitorObject
object = record {
  type_meta = record { kind = text "CollectorMonitor"; api_version = text "v1alpha1" };
  object_meta = record { name = text "mon"; namespace = text "obs"; labels = none };
  spec = spec;
  status = record {
    phase = text "Active";
    last_heartbeat = none;
    agent_count = 0;
    healthy_agents = 0;
    config_map_ref = none;
    conditions = some (record { array = 0; len = 1 });
  };
}

-- The array has room for one more.
abbrev memory : Memory
memory = record {
  condition_arrays = (active ∷ active ∷ []) ∷ [];
  monitor_arrays = [];
  monitors = object ∷ [];
  lists = [];
}

abbrev plain : MetaLib
plain = record { copy_object_meta = λ m. m; copy_list_meta = λ m. m }

plain-CopiesMeta : CopiesMeta plain
plain-CopiesMeta = record { object_meta = λ m. refl; list_meta = λ m. refl }

abbrev no_spare : ℕ → List Condition
no_spare n = []

copy_shares_example :
    let v = (deep_copy plain (some 0) memory).1 in
    let (r, u) = set_condition_at no_spare inactive 1 v in
    let before = value_of memory.condition_arrays object in
    (r ≡ ok tt)
    × (copy : MonitorObject) × (get_elem? u.monitors 1 ≡ some copy)
    × (value_of u.condition_arrays copy ≡ with_conditions (put_condition inactive) before)
    × (get_elem? u.monitors 0 ≡ some object)
    × (value_of u.condition_arrays object ≡ (
        if has_type (text "Active") before.status.conditions
        then with_conditions (put_condition inactive) before
        else before))
copy_shares_example =
    copy_shares no_spare plain plain-CopiesMeta inactive 0 object memory refl
      (record { cells = active ∷ active ∷ []; at = refl; fits = omega arith })
