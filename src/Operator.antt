-- ===== src/Operator.antt =====
-- cmd/operator/main.go, and `SetupWithManager` of
-- operator/controllers/collectormonitor_controller.go: how the operator starts.
pub mod Rules
pub mod Startup
mod Tests
use collectorctrl_k8s_code.Common.{
  ℕ, Bool, true, false, Option, none, some, List, [], ◌∷◌, ◌++◌, ◌⊎◌, inl, inr, Text, text, Assoc,
  GoError,
}
use collectorctrl_k8s_code.Monitor.Scheme.{SchemeLib, GoType, collector_monitor}

-- The value of a flag, as the command line gives it, or the default.
abbrev pub flag_value {ℓ} : {A : Type ℓ} → A → Option A → A
flag_value default none = default
flag_value default (some a) = a

-- What the command line sets; the flags of the logger have no part in what follows.
pub record CommandLine : Type 0 where
  pub metrics_bind_address : Option Text
  pub health_probe_bind_address : Option Text
  pub leader_elect : Option Bool

pub record ManagerOptions (Scheme : Type 0) : Type 0 where
  pub scheme : Scheme
  pub metrics_bind_address : Text
  pub health_probe_bind_address : Text
  pub leader_election : Bool
  pub leader_election_id : Text

-- The fields that `main` sets, and the maps, which are nil.
pub record Reconciler : Type 0 where
  pub default_secret_key : Text
  pub recorder : Text
  pub has_clientset : Bool
  pub opamp_started : Option (Assoc Bool)
  pub opamp_clients : Option (Assoc ℕ)

-- A controller, as it is given to `Complete`.
pub record Registration : Type 0 where
  pub reconciles : GoType
  pub watches : Text
  pub reconciler : Reconciler

-- controller-runtime and client-go. The clientset is a value of its own, which only the logs use.
pub record Runtime (S : SchemeLib) : Type 1 where
  pub State : Type 0
  pub RestConfig : Type 0
  pub Manager : Type 0
  pub Clientset : Type 0
  pub get_config : State → (GoError ⊎ RestConfig) × State
  pub new_manager : RestConfig → ManagerOptions S.Scheme → State → (GoError ⊎ Manager) × State
  pub new_clientset : Manager → State → (GoError ⊎ Clientset) × State
  pub complete : Manager → Registration → State → Option GoError × State
  pub add_healthz_check : Manager → Text → State → Option GoError × State
  pub add_readyz_check : Manager → Text → State → Option GoError × State
  pub start : Manager → State → Option GoError × State

-- The process: what `setupLog` was given, oldest first, and the controllers that a manager has.
pub record Process (State : Type 0) : Type 0 where
  pub runtime : State
  pub log : List Text
  pub controllers : List Registration

-- `os.Exit` with a code, or the end of `main`.
pub data Ended : Type 0 where
  exited : ℕ → Ended
  returned : Ended

module _ (State : Type 0) where
  -- A part of `main`: an exit code, or a value to go on with.
  abbrev pub Part : Type 0 → Type 0
  Part A = Process State → (ℕ ⊎ A) × Process State

module _ {State A : Type 0} where
  -- `setupLog.Error(err, message)`, `os.Exit(1)`
  abbrev pub checked : Text → GoError ⊎ A → Part State A
  checked message (inl e) p = (inl 1, record p { log = p.log ++ message ∷ [] })
  checked message (inr a) p = (inr a, p)

  abbrev pub or_exit : GoError ⊎ A → Part State A
  or_exit (inl e) p = (inl 1, p)
  or_exit (inr a) p = (inr a, p)

  abbrev pub call_or_exit : Text → (State → (GoError ⊎ A) × State) → Part State A
  call_or_exit message call p =
      let (r, s) = call p.runtime in checked message r (record p { runtime = s })

module _ {State A B : Type 0} where
  abbrev pub go_on : ℕ ⊎ A → (A → Part State B) → Part State B
  go_on (inl code) k p = (inl code, p)
  go_on (inr a) k p = k a p

  infixl 5 ◌>>=◌ ◌>>◌
  abbrev pub ◌>>=◌ : Part State A → (A → Part State B) → Part State B
  ◌>>=◌ m k p = let (r, p') = m p in go_on r k p'

  abbrev pub ◌>>◌ : Part State A → Part State B → Part State B
  m >> n = m >>= λ _. n

abbrev pub outcome_of : Option GoError → GoError ⊎ Unit {0}
outcome_of none = inr tt
outcome_of (some e) = inl e

abbrev pub ended : ℕ ⊎ Unit {0} → Ended
ended (inl code) = exited code
ended (inr u) = returned

abbrev map_or_new {ℓ} : {V : Type ℓ} → Option (Assoc V) → Option (Assoc V)
map_or_new none = some []
map_or_new (some m) = some m

-- `SetupWithManager` makes the maps that are nil.
unfoldable pub with_maps : Reconciler → Reconciler
with_maps r = record r {
  opamp_started = map_or_new r.opamp_started;
  opamp_clients = map_or_new r.opamp_clients;
}

unfoldable pub registration : Reconciler → Registration
registration r = record {
  reconciles = collector_monitor;
  watches = text "ConfigMap";
  reconciler = r;
}

-- The reconciler of `main`; `secret` is the variable OPAMP_SECRET_KEY of the environment.
unfoldable pub new_reconciler : Text → Reconciler
new_reconciler secret = record {
  default_secret_key = secret;
  recorder = text "collectorctrl-operator";
  has_clientset = true;
  opamp_started = none;
  opamp_clients = none;
}

module _ {S : SchemeLib} (rt : Runtime S) where
  unfoldable pub manager_options : S.Scheme → CommandLine → ManagerOptions S.Scheme
  manager_options scheme flags = record {
    scheme = scheme;
    metrics_bind_address = flag_value (text ":8080") flags.metrics_bind_address;
    health_probe_bind_address = flag_value (text ":8081") flags.health_probe_bind_address;
    leader_election = flag_value false flags.leader_elect;
    leader_election_id = text "collectorctrl.io";
  }

  abbrev pub told :
      (rt.State → Option GoError × rt.State) → rt.State → (GoError ⊎ Unit {0}) × rt.State
  told call s = let (e, s') = call s in (outcome_of e, s')

  -- `GetConfigOrDie` exits by itself, and logs by itself.
  abbrev pub get_config_or_die : Part rt.State rt.RestConfig
  get_config_or_die p = let (r, s) = rt.get_config p.runtime in or_exit r (record p { runtime = s })

  abbrev info : Text → Part rt.State (Unit {0})
  info message p = (inr tt, record p { log = p.log ++ message ∷ [] })

  abbrev added : Registration → Part rt.State (Unit {0})
  added c p = (inr tt, record p { controllers = p.controllers ++ c ∷ [] })

  -- `SetupWithManager`, and what `main` does with its error.
  unfoldable pub set_up_with_manager : Reconciler → rt.Manager → Part rt.State (Unit {0})
  unfolding with_maps registration
  set_up_with_manager r mgr =
      let c = registration (with_maps r) in
      call_or_exit (text "unable to create controller") (told (rt.complete mgr c)) >> added c

  unfoldable pub run_manager : rt.Manager → Part rt.State (Unit {0})
  run_manager mgr = do
    info (text "starting manager")
    call_or_exit (text "problem running manager") (told (rt.start mgr))

  unfoldable pub main_parts : S.Scheme → CommandLine → Text → Part rt.State (Unit {0})
  unfolding manager_options new_reconciler set_up_with_manager run_manager
  main_parts scheme flags secret = do
    config ← get_config_or_die
    mgr ←
        call_or_exit (text "unable to start manager")
          (rt.new_manager config (manager_options scheme flags))
    call_or_exit (text "unable to create kubernetes clientset") (rt.new_clientset mgr)
    set_up_with_manager (new_reconciler secret) mgr
    call_or_exit (text "unable to set up health check")
        (told (rt.add_healthz_check mgr (text "healthz")))
    call_or_exit (text "unable to set up ready check")
        (told (rt.add_readyz_check mgr (text "readyz")))
    run_manager mgr

  unfoldable pub main : S.Scheme → CommandLine → Text → Process rt.State → Ended × Process rt.State
  unfolding main_parts
  main scheme flags secret p = let (r, p') = main_parts scheme flags secret p in (ended r, p')
