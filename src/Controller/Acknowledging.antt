-- ===== src/Controller/Acknowledging.antt =====
-- How the handlers of operator/controllers/collectormonitor_controller.go run, with what they answer
-- to the server.
use collectorctrl_k8s_code.Common.{
  ℕ, Bool, true, false, Option, none, some, [], ◌∷◌, ◌≡◌, refl, inl, inr, Text, GoError, Outcome,
  ok, err, panic, get_elem?, if◌then◌else◌, Bool-cases,
}
use collectorctrl_k8s_code.Monitor.{WorkloadSelector}
use collectorctrl_k8s_code.Opamp.{Client, Invocation, on_message, emergency_ack, pod_logs_ack}
use collectorctrl_k8s_code.Opamp.Protocol.{CustomMessage, MessageData, send_custom_message}
use collectorctrl_k8s_code.Opamp.Session.{send_emergency_ack, send_pod_logs}
use collectorctrl_k8s_code.Controller.Action.{
  Env, World, Captured, ClientObject, failed, caught, continue, pure, call_client,
}
use collectorctrl_k8s_code.Controller.Connecting.{load-run, call_client-run}
use collectorctrl_k8s_code.Controller.Consistency.{Memory, memory_of}
use collectorctrl_k8s_code.Controller.Refining.{memory_reads, memory_calls}
use collectorctrl_k8s_code.Controller.Messaging.{
  KeepsLogs, KeepsWrites, get_pod_logs-Keeps, apply_emergency_config-Keeps,
}
use collectorctrl_k8s_code.Controller.Emergency.{apply_emergency_config}
use collectorctrl_k8s_code.Controller.Handlers.{
  run_handler, run_handlers, deliver, emergency_handler, logs_handler, acknowledge, is_disabled,
  get_pod_logs,
}

module _ {env : Env} (conn : env.lib.Conn) where
  -- After a custom message on the connection, whose error is dropped.
  abbrev pub sent : CustomMessage → World env → World env
  sent m w = record w { lib = (env.lib.perform conn (send_custom_message m) w.lib).1 }

  -- How an emergency went is told to the server; a panic tells it nothing.
  abbrev pub acknowledged : Outcome (Unit {0}) × World env → Outcome (Unit {0}) × World env
  acknowledged (ok _, w) = (ok tt, sent (emergency_ack true []) w)
  acknowledged (err e, w) = (ok tt, sent (emergency_ack false e.message) w)
  acknowledged (panic, w) = (panic, w)

  -- The logs, or the error, are told to the server.
  abbrev pub logs_told : Text → Outcome Text × World env → Outcome (Unit {0}) × World env
  logs_told pod (ok logs, w) = (ok tt, sent (pod_logs_ack pod logs true []) w)
  logs_told pod (err e, w) = (ok tt, sent (pod_logs_ack pod [] false e.message) w)
  logs_told pod (panic, w) = (panic, w)

module _ {env : Env} (p : ℕ) (c : ClientObject env) (conn : env.lib.Conn)
    (running : c.client ≡ some conn) where
  dropped :
      (e : Option GoError) (w : World env)
      → continue {env = env} (caught (failed e)) (λ _. pure tt) w ≡ (ok tt, w)
  dropped none w = refl
  dropped (some e) w = refl

  emergency_ack-run :
      (success : Bool) (message : Text) (w : World env)
      → get_elem? w.store p ≡ some c
      → acknowledge (call_client p (send_emergency_ack env.lib success message)) w
        ≡ (ok tt, sent {env = env} conn (emergency_ack success message) w)
  unfolding acknowledge send_emergency_ack
  emergency_ack-run success message w at =
      let (e, l) =
        env.lib.perform conn (send_custom_message (emergency_ack success message)) w.lib in
      rw (
        call_client-run p c (send_emergency_ack env.lib success message) w at,
        running,
        dropped e (record w { lib = l }),
      )

  pod_logs_ack-run :
      (pod logs : Text) (success : Bool) (message : Text) (w : World env)
      → get_elem? w.store p ≡ some c
      → acknowledge (call_client p (send_pod_logs env.lib pod logs success message)) w
        ≡ (ok tt, sent {env = env} conn (pod_logs_ack pod logs success message) w)
  unfolding acknowledge send_pod_logs
  pod_logs_ack-run pod logs success message w at =
      let (e, l) =
        env.lib.perform conn (send_custom_message (pod_logs_ack pod logs success message)) w.lib in
      rw (
        call_client-run p c (send_pod_logs env.lib pod logs success message) w at,
        running,
        dropped e (record w { lib = l }),
      )

module _ {env : Env} (J : Memory env.lib.Conn → Type 0) where
  pub memory_logs : KeepsLogs {env = env} (λ w. J (memory_of w))
  memory_logs = record {
    opened = λ ns pod. record { keep = λ w h. h };
    read_all = λ stream. record { keep = λ w h. h };
    close = λ stream. record { keep = λ w h. h };
  }

  memory_writes : KeepsWrites {env = env} (λ w. J (memory_of w))
  memory_writes = record {
    config_map = λ cm. record { keep = λ w h. h };
    patch = λ w patch. record { keep = λ w h. h };
  }

-- The object stands at its place.
abbrev pub IsThere : {Conn : Type 0} → ℕ → Client Conn Captured → Memory Conn → Type 0
IsThere p c m = get_elem? m.store p ≡ some c

module _ {env : Env} (show_selector : WorkloadSelector → Text) (a : Captured) (c : ClientObject env)
    (conn : env.lib.Conn) (running : c.client ≡ some conn) where
  emergency-answer :
      (o : Outcome (Unit {0}) × World env)
      → IsThere a.client c (memory_of o.1)
      → continue {env = env}
          (caught o.0)
          (λ applied. acknowledge (
            call_client a.client (elim applied [
              | inl e ↦ send_emergency_ack env.lib false e.message
              | inr _ ↦ send_emergency_ack env.lib true []
            ])))
          o.1
        ≡ acknowledged conn o
  emergency-answer (ok u, w) at = emergency_ack-run a.client c conn running true [] w at
  emergency-answer (err e, w) at = emergency_ack-run a.client c conn running false e.message w at
  emergency-answer (panic, w) at = refl

  logs-answer :
      (pod : Text) (o : Outcome Text × World env)
      → IsThere a.client c (memory_of o.1)
      → continue {env = env}
          (caught o.0)
          (λ found. acknowledge (
            call_client a.client (elim found [
              | inl e ↦ send_pod_logs env.lib pod [] false e.message
              | inr logs ↦ send_pod_logs env.lib pod logs true []
            ])))
          o.1
        ≡ logs_told conn pod o
  logs-answer pod (ok logs, w) at = pod_logs_ack-run a.client c conn running pod logs true [] w at
  logs-answer pod (err e, w) at =
      pod_logs_ack-run a.client c conn running pod [] false e.message w at
  logs-answer pod (panic, w) at = refl

  pub emergency_handler-run :
      (yaml : Text) (w : World env)
      → IsThere a.client c (memory_of w)
      → emergency_handler show_selector a yaml w ≡ (
          if is_disabled a.monitor.spec.emergency_mode.enabled
          then (ok tt, w)
          else acknowledged conn (apply_emergency_config show_selector a.monitor yaml w))
  unfolding emergency_handler
  emergency_handler-run yaml w at =
      elim (Bool-cases (is_disabled a.monitor.spec.emergency_mode.enabled)) [
        | inl b ↦ rw b refl
        | inr b ↦ rw b (
            emergency-answer (apply_emergency_config show_selector a.monitor yaml w) (
              (apply_emergency_config-Keeps (memory_reads (IsThere a.client c))
                  (memory_calls (IsThere a.client c)) (memory_logs (IsThere a.client c))
                  (memory_writes (IsThere a.client c)) show_selector a.monitor yaml).keep
                w at))
      ]

  pub logs_handler-run :
      (pod : Text) (w : World env)
      → IsThere a.client c (memory_of w)
      → logs_handler show_selector a pod w
        ≡ logs_told conn pod (get_pod_logs a.monitor.namespace pod w)
  unfolding logs_handler
  logs_handler-run pod w at =
      logs-answer pod (get_pod_logs a.monitor.namespace pod w)
        ((get_pod_logs-Keeps (memory_logs (IsThere a.client c)) a.monitor.namespace pod).keep w at)

  -- A message that runs one handler alone.
  continued :
      (o : Outcome (Unit {0}) × World env)
      → continue {env = env} o.0 (λ _. run_handlers show_selector []) o.1 ≡ o
  unfolding run_handlers
  continued (ok u, w) = refl
  continued (err e, w) = refl
  continued (panic, w) = refl

  pub deliver-one :
      (i : Invocation Captured) (msg : MessageData) (w : World env)
      → IsThere a.client c (memory_of w)
      → on_message c msg ≡ i ∷ []
      → deliver show_selector a.client msg w ≡ run_handler show_selector i w
  unfolding deliver run_handlers
  deliver-one i msg w at one =
      rw (load-run a.client c w at, one) (continued (run_handler show_selector i w))
