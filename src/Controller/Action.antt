-- ===== src/Controller/Action.antt =====
-- The reconciler's own state, and the actions of operator/controllers/collectormonitor_controller.go
-- over it, the cluster and opamp-go. An action may return an error or panic; what it has written
-- stays written.
use collectorctrl_k8s_code.Common.{
  ℕ, Bool, Option, none, some, List, [], ◌∷◌, ◌++◌, Text, Assoc, ◌⊎◌, inl, inr, GoError, Outcome,
  ok, err, panic, length, get_elem?, set, wrapf,
}
use collectorctrl_k8s_code.Monitor.{CollectorMonitor}
use collectorctrl_k8s_code.Opamp.{Client}
use collectorctrl_k8s_code.Opamp.Protocol.{OpampLib}
use collectorctrl_k8s_code.Controller.Cluster.{Cluster, Answer}

-- What the three closures of `ensureOpAMPConnection` capture: the object of that reconciliation,
-- and the client, by its place in the store. The reconciliation goes on to set the phase and a
-- condition of that object, which no handler reads.
pub record Captured : Type 0 where
  pub monitor : CollectorMonitor
  pub client : ℕ

-- The two systems that the controller calls.
pub record Env : Type 1 where
  pub cluster : Cluster
  pub lib : OpampLib

-- The controller's memory. A `*opamp.Client` is a place in `store`, where `NewClient` puts its
-- objects; `opamp_clients` and `opamp_started` are the maps of the reconciler.
pub record World (env : Env) : Type 0 where
  pub opamp_clients : Assoc ℕ
  pub opamp_started : Assoc Bool
  pub default_secret_key : Text
  pub has_clientset : Bool
  pub store : List (Client env.lib.Conn Captured)
  pub cluster : env.cluster.State
  pub lib : env.lib.State

module _ (env : Env) where
  abbrev pub Act : Type 0 → Type 0
  Act A = World env → Outcome A × World env

  abbrev pub ClientObject : Type 0
  ClientObject = Client env.lib.Conn Captured

abbrev pub caught : {A : Type 0} → Outcome A → Outcome (GoError ⊎ A)
caught (ok a) = ok (inr a)
caught (err e) = ok (inl e)
caught panic = panic

abbrev pub wrapped : {A : Type 0} → Text → Outcome A → Outcome A
wrapped context (ok a) = ok a
wrapped context (err e) = err (wrapf context e)
wrapped context panic = panic

abbrev pub answered : {A : Type 0} → GoError ⊎ A → Outcome A
answered (inl e) = err e
answered (inr a) = ok a

module _ {env : Env} {A : Type 0} where
  abbrev pub pure : A → Act env A
  pure a w = (ok a, w)

  abbrev pub raise : GoError → Act env A
  raise e w = (err e, w)

  -- A run-time panic, such as a write to a nil map.
  abbrev pub crash : Act env A
  crash w = (panic, w)

  -- `v, err := …`: the caller looks at the error itself.
  abbrev pub attempt : Act env A → Act env (GoError ⊎ A)
  attempt m w = let (r, w') = m w in (caught r, w')

  -- `return fmt.Errorf("<context>: %w", err)` on an error
  abbrev pub in_context : Text → Act env A → Act env A
  in_context context m w = let (r, w') = m w in (wrapped context r, w')

  -- A call of the cluster.
  abbrev pub ask : (env.cluster.State → Answer env.cluster.State A) → Act env A
  ask call w = let (r, s) = call w.cluster in (answered r, record w { cluster = s })

  abbrev pub read : (World env → A) → Act env A
  read f w = (ok (f w), w)

module _ {env : Env} {A B : Type 0} where
  abbrev pub continue : Outcome A → (A → Act env B) → Act env B
  continue (ok a) f w = f a w
  continue (err e) f w = (err e, w)
  continue panic f w = (panic, w)

  infixl 5 ◌>>=◌ ◌>>◌
  abbrev pub ◌>>=◌ : Act env A → (A → Act env B) → Act env B
  ◌>>=◌ m f w = let (r, w') = m w in continue r f w'

  abbrev pub ◌>>◌ : Act env A → Act env B → Act env B
  m >> n = m >>= λ _. n

abbrev pub failed : Option GoError → Outcome (Unit {0})
failed none = ok tt
failed (some e) = err e

module _ {env : Env} where
  -- A call of the cluster that returns an error alone.
  abbrev pub tell : (env.cluster.State → Option GoError × env.cluster.State) → Act env (Unit {0})
  tell call w = let (e, s) = call w.cluster in (failed e, record w { cluster = s })

  -- The clock.
  abbrev pub clock : Act env ℕ
  clock w = let (t, s) = env.cluster.now w.cluster in (ok t, record w { cluster = s })

  abbrev pub note : (env.cluster.State → env.cluster.State) → Act env (Unit {0})
  note f w = (ok tt, record w { cluster = f w.cluster })

  abbrev pub modify : (World env → World env) → Act env (Unit {0})
  modify f w = (ok tt, f w)

  unfoldable pub deref : Option (ClientObject env) → Act env (ClientObject env)
  deref none = crash
  deref (some c) = pure c

  -- A dereference; a place that is not in the store is a nil pointer.
  unfoldable pub load : ℕ → Act env (ClientObject env)
  unfolding deref
  load p w = deref (get_elem? w.store p) w

  -- `p := opamp.NewClient(cfg)`
  unfoldable pub allocate : ClientObject env → Act env ℕ
  allocate c w = (ok (length w.store), record w { store = w.store ++ c ∷ [] })

  -- A call of a method of package opamp that leaves the client object as it is.
  unfoldable pub call_client :
      ℕ → (ClientObject env → env.lib.State → Option GoError × env.lib.State) → Act env (Unit {0})
  unfolding load
  call_client p method = do
    c ← load p
    λ w. let (e, s) = method c w.lib in (failed e, record w { lib = s })

  -- A call of one that writes to it.
  unfoldable pub update_client :
      ℕ
      → (ClientObject env → env.lib.State → Option GoError × ClientObject env × env.lib.State)
      → Act env (Unit {0})
  unfolding load
  update_client p method = do
    c ← load p
    λ w.
        let (e, c', s) = method c w.lib in
        (failed e, record w { store = set w.store p c'; lib = s })
