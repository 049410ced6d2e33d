-- ===== src/Controller/Tests.antt =====
-- The theorems on the functions of operator/controllers/collectormonitor_controller.go that need no
-- run of the controller, at small input.
use collectorctrl_k8s_code.Common.{
  ℕ, Bool, true, false, List, [], ◌∷◌, map, ◌≡◌, ◌≢◌, ◌↔◌, refl, none, ok, Text, text, ◌==◌, All,
  if◌then◌else◌, select, ◌&&◌, eqb,
}
use collectorctrl_k8s_code.Api.{healthy, degraded, unhealthy, unknown}
use collectorctrl_k8s_code.Monitor.{Condition, CollectorMonitor}
use collectorctrl_k8s_code.Controller.Status.{put_condition}
use collectorctrl_k8s_code.Controller.Conditions.{
  Becomes, find_condition-put, count_type, count_type-put,
}
use collectorctrl_k8s_code.Controller.HealthLevels.{
  fleet_level, IsReady, IsNotReady, fleet_level_cases,
}
use collectorctrl_k8s_code.Controller.Reconcile.{map_config_map_to_monitors}
use collectorctrl_k8s_code.Controller.Watching.{
  Concerns, key_of_monitor, map_config_map_to_monitors_wakes,
}
use collectorctrl_k8s_code.Controller.Simulated.{monitor, pod, usual, env_of, start, config_map}

abbrev condition : Text → Text → ℕ → Condition
condition ctype status time = record {
  type = ctype;
  status = status;
  observed_generation = 0;
  last_transition_time = time;
  reason = [];
  message = [];
}

abbrev conditions : List Condition
conditions =
    condition (text "Active") (text "Unknown") 1
    ∷ condition (text "Discovered") (text "False") 2
    ∷ []

find_condition-put_example :
    Becomes
      (condition (text "Active") (text "False") 9)
      conditions
      (put_condition (condition (text "Active") (text "False") 9) conditions)
find_condition-put_example =
    find_condition-put (condition (text "Active") (text "False") 9) conditions

count_type-put_example :
    count_type
      (text "Active")
      (put_condition (condition (text "Active") (text "False") 9) conditions)
    ≡ (if (text "Active" == text "Active") && eqb (count_type (text "Active") conditions) 0
        then 1
        else count_type (text "Active") conditions)
count_type-put_example =
    count_type-put (condition (text "Active") (text "False") 9) (text "Active") conditions

fleet_level_cases_example :
    let pods = pod (text "p") true [] ∷ pod (text "q") false [] ∷ [] in
    ((fleet_level pods ≡ unknown) ↔ (pods ≡ []))
    × ((fleet_level pods ≡ healthy) ↔ ((pods ≢ []) × All IsReady pods))
    × ((fleet_level pods ≡ unhealthy) ↔ ((pods ≢ []) × All IsNotReady pods))
    × ((fleet_level pods ≡ degraded) ↔ ((¬ All IsReady pods) × (¬ All IsNotReady pods)))
fleet_level_cases_example =
    fleet_level_cases (pod (text "p") true [] ∷ pod (text "q") false [] ∷ [])

map_config_map_to_monitors_wakes_example :
    (concerned : CollectorMonitor → Bool) × ((m : CollectorMonitor)
      → (concerned m ≡ true) ↔ Concerns (text "cfg") m)
    × (map_config_map_to_monitors {env = env_of usual none} (config_map none) (start usual none)
        ≡ (ok (map key_of_monitor (select concerned (monitor ∷ []))), start usual none))
map_config_map_to_monitors_wakes_example =
    (map_config_map_to_monitors_wakes {env = env_of usual none} (config_map none) (start usual none)
        (0, 0)).0
      (monitor ∷ []) refl
