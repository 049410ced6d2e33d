-- ===== src/Controller/Handlers.antt =====
-- The handlers that `ensureOpAMPConnection` registers, and `getPodLogs`, in
-- operator/controllers/collectormonitor_controller.go. A handler sees the object of the
-- reconciliation that registered it.
use collectorctrl_k8s_code.Common.{
  ℕ, Bool, true, false, Option, none, some, List, [], ◌∷◌, Text, text, if◌then◌else◌, inl, inr,
  errorf,
}
use collectorctrl_k8s_code.Monitor.{WorkloadSelector}
use collectorctrl_k8s_code.Opamp.{Invocation, config_update, emergency, fetch_logs, on_message}
use collectorctrl_k8s_code.Opamp.Protocol.{MessageData}
use collectorctrl_k8s_code.Opamp.Session.{send_emergency_ack, send_pod_logs}
use collectorctrl_k8s_code.Controller.Action.{
  Env, Act, Captured, pure, raise, attempt, ask, read, note, load, call_client, ◌>>=◌, ◌>>◌,
}
use collectorctrl_k8s_code.Controller.Emergency.{apply_emergency_config}

abbrev pub tail_lines : ℕ
tail_lines = 100

abbrev pub is_disabled : Option Bool → Bool
is_disabled none = false
is_disabled (some b) = if b then false else true

module _ {env : Env} where
  -- The stream is closed whether or not it could be read.
  unfoldable pub read_logs : env.cluster.LogStream → Act env Text
  read_logs stream = do
    found ← attempt (ask (env.cluster.read_all stream))
    note (env.cluster.close_logs stream)
    elim found [ inl e ↦ raise e | inr logs ↦ pure logs ]

  unfoldable pub fetch_with : Bool → Text → Text → Act env Text
  unfolding read_logs
  fetch_with false namespace pod_name = raise (errorf (text "clientset not initialized"))
  fetch_with true namespace pod_name = do
    stream ← ask (env.cluster.open_logs namespace pod_name tail_lines)
    read_logs stream

  unfoldable pub get_pod_logs : Text → Text → Act env Text
  unfolding fetch_with
  get_pod_logs namespace pod_name = do
    ready ← read (λ w. w.has_clientset)
    fetch_with ready namespace pod_name

  -- An acknowledgement whose error is dropped.
  unfoldable pub acknowledge : Act env (Unit {0}) → Act env (Unit {0})
  acknowledge m = attempt m >>= λ _. pure tt

module _ {env : Env} (show_selector : WorkloadSelector → Text) where
  unfoldable pub emergency_handler : Captured → Text → Act env (Unit {0})
  unfolding acknowledge
  emergency_handler captured config_yaml =
      if is_disabled captured.monitor.spec.emergency_mode.enabled then pure tt else (do
        applied ← attempt (apply_emergency_config show_selector captured.monitor config_yaml)
        acknowledge (
            call_client captured.client (elim applied [
              | inl e ↦ send_emergency_ack env.lib false e.message
              | inr _ ↦ send_emergency_ack env.lib true []
            ])))

  unfoldable pub logs_handler : Captured → Text → Act env (Unit {0})
  unfolding acknowledge
  logs_handler captured pod_name = do
    found ← attempt (get_pod_logs captured.monitor.namespace pod_name)
    acknowledge (
        call_client captured.client (elim found [
          | inl e ↦ send_pod_logs env.lib pod_name [] false e.message
          | inr logs ↦ send_pod_logs env.lib pod_name logs true []
        ]))

  unfoldable pub run_handler : Invocation Captured → Act env (Unit {0})
  unfolding emergency_handler logs_handler
  run_handler (config_update captured update) = pure tt
  run_handler (emergency captured cmd) = emergency_handler captured cmd.config_yaml
  run_handler (fetch_logs captured pod_name) = logs_handler captured pod_name

  unfoldable pub run_handlers : List (Invocation Captured) → Act env (Unit {0})
  run_handlers [] = pure tt
  run_handlers (i ∷ is) = do run_handler i; run_handlers is

  -- A message that arrives at the client at a place of the store.
  unfoldable pub deliver : ℕ → MessageData → Act env (Unit {0})
  unfolding run_handlers
  deliver p msg = do c ← load p; run_handlers (on_message c msg)
