-- ===== src/Controller/Answering.antt =====
-- What the controller of operator/controllers/collectormonitor_controller.go answers to the messages
-- of the server.
use collectorctrl_k8s_code.Common.{
  ℕ, some, map, ◌≡◌, sym, ◌∙◌, subst, Text, text, Outcome, ok, lookup, get_elem?, fold_rune,
  if◌then◌else◌,
}
use collectorctrl_k8s_code.Common.Cut.{Lacks}
use collectorctrl_k8s_code.Monitor.{WorkloadSelector}
use collectorctrl_k8s_code.Opamp.Protocol.{MessageData}
use collectorctrl_k8s_code.Opamp.Messages.{emergency_content}
use collectorctrl_k8s_code.Opamp.Requests.{custom, on_message_emergency}
use collectorctrl_k8s_code.Controller.Action.{Env, World, Captured, ClientObject}
use collectorctrl_k8s_code.Controller.Consistency.{Memory, memory_of, Serves}
use collectorctrl_k8s_code.Controller.Running.{Reachable, Reachable-IsOrderly}
use collectorctrl_k8s_code.Controller.Ownership.{served_by}
use collectorctrl_k8s_code.Controller.Connection.{connection_key}
use collectorctrl_k8s_code.Controller.Emergency.{apply_emergency_config}
use collectorctrl_k8s_code.Controller.Handlers.{run_handler, deliver, is_disabled}
use collectorctrl_k8s_code.Controller.Acknowledging.{
  acknowledged, IsThere, emergency_handler-run, deliver-one,
}

abbrev Anything : {Conn : Type 0} → Memory Conn → Type 0
Anything m = Unit

module _ {env : Env} (show_selector : WorkloadSelector → Text) (quote : Text → Text) (w : World env)
    (reached : Reachable show_selector quote w) (key : Text) (p : ℕ) (c : ClientObject env)
    (conn : env.lib.Conn) (found : lookup key w.opamp_clients ≡ some p)
    (at : get_elem? w.store p ≡ some c) (running : c.client ≡ some conn) where
  serving : Serves key p c
  serving =
      let (d, atd, s) = (Reachable-IsOrderly show_selector quote w reached).served key p found in
      subst (Serves key p) (served_by atd at) s

  -- What is so at the place that a handler captured is so at the place of the connection.
  at_its_place :
      (msg : MessageData) (o : Outcome (Unit {0}) × World env)
      → (IsThere serving.captured.client c (memory_of w)
          → deliver show_selector serving.captured.client msg w ≡ o)
      → deliver show_selector p msg w ≡ o
  at_its_place msg o h =
      subst (λ q. deliver show_selector q msg w ≡ o) serving.place
        (h (subst (λ q. IsThere q c (memory_of w)) (sym serving.place) at))

  module _ (capability type : Text)
      (ours : map fold_rune capability ≡ map fold_rune (text "collectorctrl")) where
    -- In a state that the controller reaches, where the connection of a key is started, a message
    -- that holds an emergency alone, with the capability and the type up to case and a reason with
    -- no newline, is handled for a monitor of that key. If its emergency mode is switched off,
    -- nothing happens. Otherwise the emergency is applied with the configuration as the server wrote
    -- it, and then, unless that panicked, one acknowledgement is sent on that connection: true if it
    -- succeeded, and false with the message of the error if it did not.
    pub deliver_emergency :
        map fold_rune type ≡ map fold_rune (text "emergency")
        → (reason yaml : Text) → Lacks 10 reason
        → (a : Captured) × (connection_key a.monitor.namespace a.monitor.name ≡ key)
          × (deliver show_selector p (custom capability type (emergency_content reason yaml)) w ≡ (
              if is_disabled a.monitor.spec.emergency_mode.enabled
              then (ok tt, w)
              else acknowledged conn (apply_emergency_config show_selector a.monitor yaml w)))
    unfolding run_handler
    deliver_emergency t reason yaml lacks =
        let a = serving.captured in
        let one =
          on_message_emergency c a capability type ours serving.emergencies t reason yaml lacks in
        (
          a,
          serving.monitor,
          at_its_place _ _ λ there.
              deliver-one show_selector a c conn running _ _ w there one
              ∙ emergency_handler-run show_selector a c conn running yaml w there,
        )
