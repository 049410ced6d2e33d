-- ===== src/Controller/Disabled.antt =====
-- The switch of the emergency mode in operator/controllers/collectormonitor_controller.go.
use collectorctrl_k8s_code.Common.{ℕ, true, some, List, [], ◌∷◌, ◌≡◌, Text, All, All-map, get_elem?}
use collectorctrl_k8s_code.Monitor.{WorkloadSelector}
use collectorctrl_k8s_code.Opamp.{Invocation, config_update, emergency, fetch_logs, on_message}
use collectorctrl_k8s_code.Opamp.Protocol.{MessageData}
use collectorctrl_k8s_code.Opamp.Messages.{IsRequested, on_message-IsRequested}
use collectorctrl_k8s_code.Controller.Action.{Env, World, Captured, ClientObject}
use collectorctrl_k8s_code.Controller.Keeping.{Keeps, pure-Keeps, bind-Keeps}
use collectorctrl_k8s_code.Controller.Connecting.{load-run}
use collectorctrl_k8s_code.Controller.Messaging.{KeepsLogs, logs_handler-Keeps}
use collectorctrl_k8s_code.Controller.Steps.{KeepsCalls}
use collectorctrl_k8s_code.Controller.Handlers.{
  run_handler, run_handlers, deliver, emergency_handler, is_disabled,
}

-- Where the handler is that of an emergency, its monitor has the emergency mode switched off.
abbrev pub IsSwitchedOff : Invocation Captured → Type 0
IsSwitchedOff (config_update captured update) = Unit
IsSwitchedOff (emergency captured cmd) =
    is_disabled captured.monitor.spec.emergency_mode.enabled ≡ true
IsSwitchedOff (fetch_logs captured pod) = Unit

module _ {env : Env} {I : World env → Type 0} (calls : KeepsCalls I) (logs : KeepsLogs I)
    (show_selector : WorkloadSelector → Text) where
  emergency_handler_off :
      (captured : Captured) (yaml : Text)
      → is_disabled captured.monitor.spec.emergency_mode.enabled ≡ true
      → Keeps I (emergency_handler {env = env} show_selector captured yaml)
  unfolding emergency_handler
  emergency_handler_off captured yaml h = rw h (pure-Keeps tt)

  run_handler_off :
      (i : Invocation Captured)
      → IsSwitchedOff i
      → Keeps I (run_handler {env = env} show_selector i)
  unfolding run_handler
  run_handler_off (config_update captured update) h = pure-Keeps tt
  run_handler_off (emergency captured cmd) h = emergency_handler_off captured cmd.config_yaml h
  run_handler_off (fetch_logs captured pod) h =
      logs_handler-Keeps calls logs show_selector captured pod

  run_handlers_off :
      (is : List (Invocation Captured))
      → All IsSwitchedOff is
      → Keeps I (run_handlers {env = env} show_selector is)
  unfolding run_handlers
  run_handlers_off [] h = pure-Keeps tt
  run_handlers_off (i ∷ is) h = bind-Keeps (run_handler_off i h.0) λ _. run_handlers_off is h.1

  switched_off :
      (c : ClientObject env) (msg : MessageData)
      → ((captured : Captured)
          → c.on_emergency_cmd ≡ some captured
          → is_disabled captured.monitor.spec.emergency_mode.enabled ≡ true)
      → (i : Invocation Captured) → IsRequested c msg i
      → IsSwitchedOff i
  switched_off c msg off (config_update captured update) r = tt
  switched_off c msg off (emergency captured cmd) r = off captured r.0
  switched_off c msg off (fetch_logs captured pod) r = tt

  -- A message to a client whose monitor has the emergency mode switched off changes no config map
  -- and no workload, whatever it holds: what logs, events, statuses and calls of opamp-go keep, it
  -- keeps.
  pub deliver_switched_off :
      (p : ℕ) (msg : MessageData) (c : ClientObject env) (w : World env)
      → get_elem? w.store p ≡ some c
      → ((captured : Captured)
          → c.on_emergency_cmd ≡ some captured
          → is_disabled captured.monitor.spec.emergency_mode.enabled ≡ true)
      → I w
      → I (deliver show_selector p msg w).1
  unfolding deliver
  deliver_switched_off p msg c w at off h = rw (load-run p c w at) (
      (run_handlers_off (on_message c msg) (
          All-map (switched_off c msg off) (on_message c msg)
            (on_message-IsRequested c msg).0)).keep
        w h)
