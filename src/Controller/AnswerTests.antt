-- ===== src/Controller/AnswerTests.antt =====
-- The theorems on the answers of operator/controllers/collectormonitor_controller.go, after a
-- reconciliation on the simulated cluster.
use collectorctrl_k8s_code.Common.{none, map, ◌≡◌, refl, text, ok, arith, fold_rune, if◌then◌else◌}
use collectorctrl_k8s_code.Common.Cut.{Lacks}
use collectorctrl_k8s_code.Opamp.Messages.{emergency_content}
use collectorctrl_k8s_code.Opamp.Requests.{custom}
use collectorctrl_k8s_code.Controller.Action.{Captured}
use collectorctrl_k8s_code.Controller.Connection.{connection_key}
use collectorctrl_k8s_code.Controller.Emergency.{apply_emergency_config}
use collectorctrl_k8s_code.Controller.Handlers.{deliver, is_disabled}
use collectorctrl_k8s_code.Controller.Acknowledging.{acknowledged}
use collectorctrl_k8s_code.Controller.Answering.{deliver_emergency}
use collectorctrl_k8s_code.Controller.RunTests.{
  reached, reached-Reachable, reached_facts, first_object, monitor_key,
}
use collectorctrl_k8s_code.Controller.Simulated.{usual, env_of, show_selector, quote}

capability_folds : map fold_rune (text "CollectorCtrl") ≡ map fold_rune (text "collectorctrl")
unfolding text fold_rune
capability_folds = refl

emergency_folds : map fold_rune (text "Emergency") ≡ map fold_rune (text "emergency")
unfolding text fold_rune
emergency_folds = refl

reason-Lacks : Lacks 10 (text "why")
unfolding text
reason-Lacks = omega arith

deliver_emergency_example :
    (a : Captured) × (connection_key a.monitor.namespace a.monitor.name ≡ monitor_key)
    × (deliver {env = env_of usual none} show_selector 0
          (custom
            (text "CollectorCtrl")
            (text "Emergency")
            (emergency_content (text "why") (text "a: 2")))
          reached
        ≡ (if is_disabled a.monitor.spec.emergency_mode.enabled
            then (ok tt, reached)
            else acknowledged {env = env_of usual none} 0 (
                apply_emergency_config {env = env_of usual none} show_selector a.monitor
                  (text "a: 2")
                  reached)))
deliver_emergency_example =
    deliver_emergency {env = env_of usual none} show_selector quote reached reached-Reachable
      monitor_key 0 (first_object reached.store) 0 reached_facts.0 reached_facts.1 reached_facts.2
      (text "CollectorCtrl") (text "Emergency") capability_folds emergency_folds (text "why")
      (text "a: 2") reason-Lacks
