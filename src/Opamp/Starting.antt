-- ===== src/Opamp/Starting.antt =====
-- Starting, stopping and configuring the client of pkg/opamp/client.go: the calls that reach
-- opamp-go, in order, and what is kept in the client object.
use collectorctrl_k8s_code.Common.{
  Bool, Option, none, some, List, [], ◌∷◌, ◌++◌, ◌≡◌, refl, ap, ◌∙◌, Text, text, GoError, wrapf,
}
use mathlib.Core.List.{append_assoc}
use collectorctrl_k8s_code.Opamp.Protocol.{
  Call, set_agent_description, set_health, start, update_effective_config, OpampLib,
}
use collectorctrl_k8s_code.Api.{HealthStatus}
use collectorctrl_k8s_code.Opamp.Session.{
  agent_description, start_settings, http_header, handshake, start_client, stop_client, then_call,
  finish_call, set_effective_config, report_health, send_emergency_ack, send_pod_logs,
}
use collectorctrl_k8s_code.Opamp.{
  Client, ClientConfig, PodHealth, initial_health, not_started, get_effective_config,
  effective_config_of,
}

-- A call with the error it answered.
abbrev pub Entry : Type 0
Entry = Call × Option GoError

-- opamp-go with a log of the calls that are made.
abbrev pub recording : OpampLib → OpampLib
recording lib = record {
  State = lib.State × List Entry;
  Conn = lib.Conn;
  new_web_socket = λ s. let (conn, s') = lib.new_web_socket s.0 in (conn, (s', s.1));
  perform =
      λ conn call s. let (e, s') = lib.perform conn call s.0 in (e, (s', s.1 ++ (call, e) ∷ []));
  md5 = lib.md5;
  range_order = lib.range_order;
}

-- Of planned calls, with the context of their errors: those that are made, and what is returned.
-- They are made in order, until one fails.
pub data UpToFailure : List (Text × Call) → List Entry → Option GoError → Type 0 where
  all_made : UpToFailure [] [] none
  failed :
      (context : Text) (call : Call) (missed : List (Text × Call)) (e : GoError)
      → UpToFailure ((context, call) ∷ missed) ((call, some e) ∷ []) (some (wrapf context e))
  went_well :
      (context : Text) (call : Call) (later : List (Text × Call)) (made : List Entry)
      (e : Option GoError)
      → UpToFailure later made e
      → UpToFailure ((context, call) ∷ later) ((call, none) ∷ made) e

-- The log grows by the calls that are made.
abbrev pub MadeCalls : Option GoError → List Entry → List Entry → List (Text × Call) → Type 0
MadeCalls e before after plan =
    (made : List Entry) × (after ≡ before ++ made) × UpToFailure plan made e

module _ (lib : OpampLib) where
  abbrev pub start_calls : ClientConfig → List (Text × Call)
  start_calls cfg =
      (text "set agent description", set_agent_description (agent_description (recording lib) cfg))
      ∷ (text "set initial health", set_health initial_health)
      ∷ (text "opamp start", start (start_settings (recording lib) cfg (http_header cfg.headers)))
      ∷ []

  -- One call that may fail, and the calls behind it.
  then_call-MadeCalls :
      (context : Text) (call : Call) (before : List Entry) (rest : List (Text × Call))
      (e : Option GoError) (s : lib.State × List Entry)
      (k : lib.State × List Entry → Option GoError × (lib.State × List Entry))
      → s.1 ≡ before ++ (call, e) ∷ []
      → ((t : lib.State × List Entry) → MadeCalls (k t).0 t.1 (k t).1.1 rest)
      → let out = then_call (recording lib) context (e, s) k in
        MadeCalls out.0 before out.1.1 ((context, call) ∷ rest)
  then_call-MadeCalls context call before rest (some e) s k h later =
      ((call, some e) ∷ [], h, failed context call rest e)
  then_call-MadeCalls context call before rest none s k h later =
      let (made, log, all) = later s in
      (
        (call, none) ∷ made,
        log ∙ ap (λ (l : List Entry). l ++ made) h ∙ append_assoc before ((call, none) ∷ []) made,
        went_well context call rest made (k s).0 all,
      )

  finish_call-MadeCalls :
      (context : Text) (call : Call) (before : List Entry) (e : Option GoError)
      (s : lib.State × List Entry)
      → s.1 ≡ before ++ (call, e) ∷ []
      → let out = finish_call (recording lib) context (e, s) in
        MadeCalls out.0 before out.1.1 ((context, call) ∷ [])
  finish_call-MadeCalls context call before none s h =
      ((call, none) ∷ [], h, went_well context call [] [] none all_made)
  finish_call-MadeCalls context call before (some e) s h =
      ((call, some e) ∷ [], h, failed context call [] e)

  handshake-MadeCalls :
      (cfg : ClientConfig) (conn : lib.Conn) (s : lib.State) (log : List Entry)
      → let r = handshake (recording lib) cfg conn (s, log) in
        MadeCalls r.0 log r.1.1 (start_calls cfg)
  unfolding handshake
  handshake-MadeCalls cfg conn s log =
      let perform = (recording lib).perform conn in
      let describe = set_agent_description (agent_description (recording lib) cfg) in
      let connect = start (start_settings (recording lib) cfg (http_header cfg.headers)) in
      let third = λ (s2 : lib.State × List Entry).
        finish_call (recording lib) (text "opamp start") (perform connect s2) in
      let second = λ (s1 : lib.State × List Entry).
        then_call (recording lib) (text "set initial health")
          (perform (set_health initial_health) s1) third in
      let (e0, t0) = perform describe (s, log) in
      then_call-MadeCalls (text "set agent description") describe log
        ((text "set initial health", set_health initial_health)
          ∷ (text "opamp start", connect)
          ∷ [])
        e0 t0 second refl
        (λ s1.
          let (e1, t1) = perform (set_health initial_health) s1 in
          then_call-MadeCalls (text "set initial health") (set_health initial_health) s1.1
            ((text "opamp start", connect) ∷ []) e1 t1 third refl
            (λ s2.
              let (e2, t2) = perform connect s2 in
              finish_call-MadeCalls (text "opamp start") connect s2.1 e2 t2 refl))

  module _ {H : Type 0} (c : Client lib.Conn H) (s : lib.State) where
    -- `Start` makes its three calls in order until one fails, and returns the error of that one in
    -- its context, or no error if none fails. In either case the client object keeps the new
    -- connection, and nothing else of it changes.
    pub start_client-calls :
        (log : List Entry)
        → let r = start_client (recording lib) c (s, log) in
          MadeCalls r.0 log r.2.1 (start_calls c.config)
          × (r.1 ≡ record c { client = some (lib.new_web_socket s).0 })
    unfolding start_client
    start_client-calls log =
        (handshake-MadeCalls c.config (lib.new_web_socket s).0 (lib.new_web_socket s).1 log, refl)

    -- Before `Start` every method refuses, and nothing reaches opamp-go.
    pub not_started_refused :
        (status : HealthStatus) (pods : List PodHealth) (config : Text) (success : Bool)
        (pod logs message : Text)
        → c.client ≡ none
        → (report_health lib status pods c s ≡ (some not_started, s))
          × (set_effective_config lib config c s ≡ (some not_started, c, s))
          × (send_emergency_ack lib success message c s ≡ (some not_started, s))
          × (send_pod_logs lib pod logs success message c s ≡ (some not_started, s))
          × (stop_client lib c s ≡ s)
    unfolding report_health set_effective_config send_emergency_ack send_pod_logs stop_client
    not_started_refused status pods config success pod logs message h =
        rw h (refl, refl, refl, refl, refl)

    -- Once started, a configuration that is set is what the callback returns from then on and what
    -- the update call carries, whether or not that call fails.
    pub set_effective_config-get :
        (conn : lib.Conn) (config : Text)
        → c.client ≡ some conn
        → let r = set_effective_config lib config c s in
          (get_effective_config r.1 ≡ effective_config_of config)
          × ((r.0, r.2) ≡ lib.perform conn (update_effective_config (effective_config_of config)) s)
    unfolding set_effective_config get_effective_config
    set_effective_config-get conn config h = rw h (refl, refl)
