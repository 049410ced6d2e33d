-- ===== src/Controller/HealthReports.antt =====
-- What operator/controllers/collectormonitor_controller.go tells the server about the pods, by
-- `SetHealth` of pkg/opamp/client.go.
use collectorctrl_k8s_code.Common.{
  ℕ, Bool, true, Option, none, some, List, [], map, text, GoError, Outcome, err, wrapf, show_nat,
}
use collectorctrl_k8s_code.Monitor.{ConfigMapReference}
use collectorctrl_k8s_code.Opamp.{fleet_health}
use collectorctrl_k8s_code.Opamp.Protocol.{ComponentHealth, health, end, component}
use collectorctrl_k8s_code.Controller.Cluster.{Pod}
use collectorctrl_k8s_code.Controller.Action.{Env, World}
use collectorctrl_k8s_code.Controller.Fleet.{report_config, pod_health}
use collectorctrl_k8s_code.Controller.HealthLevels.{fleet_level}

-- The fleet, with the number of pods that are ready and of all.
abbrev pub counted : Bool → Bool → ℕ → ℕ → ComponentHealth
counted fleet_healthy all_ready ready total = health fleet_healthy [] (
    component (text "total_pods") (health true (show_nat total) end)
      (component (text "ready_pods") (health all_ready (show_nat ready) end) end))

-- The message about some pods.
abbrev pub fleet_message : List Pod → ComponentHealth
fleet_message pods = fleet_health (fleet_level pods) (map pod_health pods)

module _ {env : Env} where
  -- What follows `SetHealth`.
  abbrev pub after_health :
      ℕ → Option ConfigMapReference → Option GoError → World env → Outcome (Unit {0}) × World env
  after_health p ref none w = report_config p ref w
  after_health p ref (some e) w = (err (wrapf (text "set health") e), w)
