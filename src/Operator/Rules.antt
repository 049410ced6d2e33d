-- ===== src/Operator/Rules.antt =====
-- How the parts of `main` of cmd/operator/main.go follow each other: a rule for each answer of each
-- call.
use collectorctrl_k8s_code.Common.{
  true, none, some, [], ◌∷◌, ◌++◌, ◌≡◌, inl, inr, Text, text, GoError,
}
use collectorctrl_k8s_code.Monitor.Scheme.{SchemeLib, collector_monitor}
use collectorctrl_k8s_code.Operator.{
  manager_options, CommandLine, Runtime, Process, Ended, exited, returned, Registration,
}

-- What is registered: a controller of the custom resource that watches the config maps too. Its
-- reconciler has maps that are made, empty, and the secret of the environment.
abbrev pub operator_controller : Text → Registration
operator_controller secret = record {
  reconciles = collector_monitor;
  watches = text "ConfigMap";
  reconciler = record {
    default_secret_key = secret;
    recorder = text "collectorctrl-operator";
    has_clientset = true;
    opamp_started = some [];
    opamp_clients = some [];
  };
}

-- How far `main` has come.
pub data Point (Config Manager : Type 0) : Type 0 where
  begun : Point Config Manager
  configured : Config → Point Config Manager
  made has_clientset has_controller has_healthz has_readyz : Manager → Point Config Manager

module _ {State : Type 0} where
  abbrev pub moved : State → Process State → Process State
  moved s p = record p { runtime = s }

  abbrev pub logged : Text → Process State → Process State
  logged message p = record p { log = p.log ++ message ∷ [] }

  abbrev pub registered : Registration → Process State → Process State
  registered c p = record p { controllers = p.controllers ++ c ∷ [] }

module _ {S : SchemeLib} (rt : Runtime S) (scheme : S.Scheme) (flags : CommandLine)
    (secret : Text) where
  -- What happens from a point on. Each call is made in the state that the one before it has left;
  -- if it fails, its complaint is logged and the process exits with code 1.
  pub data Goes
      : Point rt.RestConfig rt.Manager → Process rt.State → Ended × Process rt.State → Type 0 where
    no_config :
        (p : Process rt.State) (e : GoError) (s : rt.State)
        → rt.get_config p.runtime ≡ (inl e, s)
        → Goes begun p (exited 1, moved s p)
    config_read :
        (p : Process rt.State) (config : rt.RestConfig) (s : rt.State)
        (o : Ended × Process rt.State)
        → rt.get_config p.runtime ≡ (inr config, s)
        → Goes (configured config) (moved s p) o
        → Goes begun p o
    no_manager :
        (config : rt.RestConfig) (p : Process rt.State) (e : GoError) (s : rt.State)
        → rt.new_manager config (manager_options rt scheme flags) p.runtime ≡ (inl e, s)
        → Goes (configured config) p (exited 1, logged (text "unable to start manager") (moved s p))
    manager_made :
        (config : rt.RestConfig) (p : Process rt.State) (mgr : rt.Manager) (s : rt.State)
        (o : Ended × Process rt.State)
        → rt.new_manager config (manager_options rt scheme flags) p.runtime ≡ (inr mgr, s)
        → Goes (made mgr) (moved s p) o
        → Goes (configured config) p o
    no_clientset :
        (mgr : rt.Manager) (p : Process rt.State) (e : GoError) (s : rt.State)
        → rt.new_clientset mgr p.runtime ≡ (inl e, s)
        → Goes
            (made mgr)
            p
            (exited 1, logged (text "unable to create kubernetes clientset") (moved s p))
    clientset_made :
        (mgr : rt.Manager) (p : Process rt.State) (clientset : rt.Clientset) (s : rt.State)
        (o : Ended × Process rt.State)
        → rt.new_clientset mgr p.runtime ≡ (inr clientset, s)
        → Goes (has_clientset mgr) (moved s p) o
        → Goes (made mgr) p o
    no_controller :
        (mgr : rt.Manager) (p : Process rt.State) (e : GoError) (s : rt.State)
        → rt.complete mgr (operator_controller secret) p.runtime ≡ (some e, s)
        → Goes
            (has_clientset mgr)
            p
            (exited 1, logged (text "unable to create controller") (moved s p))
    controller_made :
        (mgr : rt.Manager) (p : Process rt.State) (s : rt.State) (o : Ended × Process rt.State)
        → rt.complete mgr (operator_controller secret) p.runtime ≡ (none, s)
        → Goes (has_controller mgr) (registered (operator_controller secret) (moved s p)) o
        → Goes (has_clientset mgr) p o
    no_healthz :
        (mgr : rt.Manager) (p : Process rt.State) (e : GoError) (s : rt.State)
        → rt.add_healthz_check mgr (text "healthz") p.runtime ≡ (some e, s)
        → Goes
            (has_controller mgr)
            p
            (exited 1, logged (text "unable to set up health check") (moved s p))
    healthz_added :
        (mgr : rt.Manager) (p : Process rt.State) (s : rt.State) (o : Ended × Process rt.State)
        → rt.add_healthz_check mgr (text "healthz") p.runtime ≡ (none, s)
        → Goes (has_healthz mgr) (moved s p) o
        → Goes (has_controller mgr) p o
    no_readyz :
        (mgr : rt.Manager) (p : Process rt.State) (e : GoError) (s : rt.State)
        → rt.add_readyz_check mgr (text "readyz") p.runtime ≡ (some e, s)
        → Goes
            (has_healthz mgr)
            p
            (exited 1, logged (text "unable to set up ready check") (moved s p))
    readyz_added :
        (mgr : rt.Manager) (p : Process rt.State) (s : rt.State) (o : Ended × Process rt.State)
        → rt.add_readyz_check mgr (text "readyz") p.runtime ≡ (none, s)
        → Goes (has_readyz mgr) (moved s p) o
        → Goes (has_healthz mgr) p o
    broke_down :
        (mgr : rt.Manager) (p : Process rt.State) (e : GoError) (s : rt.State)
        → rt.start mgr p.runtime ≡ (some e, s)
        → Goes (has_readyz mgr) p (
          exited 1,
          logged (text "problem running manager") (logged (text "starting manager") (moved s p)),
        )
    came_to_an_end :
        (mgr : rt.Manager) (p : Process rt.State) (s : rt.State)
        → rt.start mgr p.runtime ≡ (none, s)
        → Goes (has_readyz mgr) p (returned, logged (text "starting manager") (moved s p))
