-- ===== src/Controller/Running.antt =====
-- The controller as a machine: reconciliations, messages to the clients and their connections, and
-- the watch of operator/controllers/collectormonitor_controller.go, one after another, with anything
-- that happens to the cluster and to opamp-go between them.
use collectorctrl_k8s_code.Common.{none, refl, ap, ℕ, [], ◌≡◌, Text, lookup, lookup_or, arith}
use collectorctrl_k8s_code.Monitor.{WorkloadSelector}
use collectorctrl_k8s_code.Opamp.{on_connect}
use collectorctrl_k8s_code.Opamp.Protocol.{MessageData}
use collectorctrl_k8s_code.Controller.Cluster.{ObjectKey, ConfigMap}
use collectorctrl_k8s_code.Controller.Action.{Env, World, Act, update_client}
use collectorctrl_k8s_code.Controller.Keeping.{
  Keeps, pure-Keeps, attempt-Keeps, bind-Keeps, sum-Keeps,
}
use collectorctrl_k8s_code.Controller.Steps.{KeepsReads}
use collectorctrl_k8s_code.Controller.Connected.{
  update_client-IsOrderly, IsOrderly, IsOrderly-reads, IsOrderly-calls, IsOrderly-effects,
}
use collectorctrl_k8s_code.Controller.Messaging.{KeepsLogs, KeepsWrites, deliver-Keeps}
use collectorctrl_k8s_code.Controller.Paths.{reconcile-Keeps}
use collectorctrl_k8s_code.Controller.Reconcile.{
  reconcile, map_config_map_to_monitors, requests_for,
}
use collectorctrl_k8s_code.Controller.Handlers.{deliver}

-- A controller as `SetupWithManager` leaves it, with no connection yet.
abbrev pub IsFresh : {env : Env} → World env → Type 0
IsFresh w = (w.opamp_clients ≡ []) × (w.opamp_started ≡ []) × (w.store ≡ [])

-- opamp-go calls `OnConnect` of the client at a place.
unfoldable pub note_connected : {env : Env} → ℕ → Act env (Unit {0})
note_connected {env} p = update_client p (λ c s. (none, on_connect c, s))

pub fresh-IsOrderly : {env : Env} (w : World env) → IsFresh w → IsOrderly w
unfolding lookup lookup_or
fresh-IsOrderly w f = record {
  served = λ key p e. absurd (ground (arith, ap (lookup key) f.0));
  started = λ key. ground (arith, ap (lookup key) f.0, ap (lookup key) f.1);
}

pub note_connected-IsOrderly :
    {env : Env} (p : ℕ) (w : World env) → IsOrderly w → IsOrderly (note_connected p w).1
unfolding note_connected on_connect
note_connected-IsOrderly p =
    update_client-IsOrderly p (λ c s. (none, on_connect c, s)) (λ c s. (refl, refl, refl))

module _ {env : Env} (show_selector : WorkloadSelector → Text) (quote : Text → Text) where
  -- One step of the controller, or of the systems around it.
  pub data Step : World env → World env → Type 0 where
    reconciled : (req : ObjectKey) (w : World env) → Step w (reconcile show_selector quote req w).1
    delivered :
        (p : ℕ) (msg : MessageData) (w : World env) → Step w (deliver show_selector p msg w).1
    opened : (p : ℕ) (w : World env) → Step w (note_connected p w).1
    watched : (cm : ConfigMap) (w : World env) → Step w (map_config_map_to_monitors cm w).1
    elsewhere :
        (cluster : env.cluster.State) (lib : env.lib.State) (w : World env)
        → Step w (record w { cluster = cluster; lib = lib })

  pub data Reachable : World env → Type 0 where
    fresh : (w : World env) → IsFresh w → Reachable w
    step : (v w : World env) → Reachable v → Step v w → Reachable w

IsOrderly-logs : {env : Env} → KeepsLogs {env = env} IsOrderly
IsOrderly-logs = record {
  opened = λ ns pod. record { keep = λ w h. h };
  read_all = λ stream. record { keep = λ w h. h };
  close = λ stream. record { keep = λ w h. h };
}

IsOrderly-writes : {env : Env} → KeepsWrites {env = env} IsOrderly
IsOrderly-writes = record {
  config_map = λ cm. record { keep = λ w h. h };
  patch = λ w p. record { keep = λ v h. h };
}

pub watch-Keeps :
    {env : Env} {I : World env → Type 0} (reads : KeepsReads I) (cm : ConfigMap)
    → Keeps I (map_config_map_to_monitors {env = env} cm)
unfolding map_config_map_to_monitors
watch-Keeps reads cm =
    bind-Keeps (attempt-Keeps (reads.monitors cm.namespace))
      λ found. sum-Keeps found (λ e. pure-Keeps []) (λ ms. pure-Keeps (requests_for cm.name ms))

module _ {env : Env} (show_selector : WorkloadSelector → Text) (quote : Text → Text) where
  Step-IsOrderly : (v w : World env) → Step show_selector quote v w → IsOrderly v → IsOrderly w
  Step-IsOrderly _ _ (reconciled req v) h =
      (reconcile-Keeps IsOrderly-reads IsOrderly-effects show_selector quote req).keep v h
  Step-IsOrderly _ _ (delivered p msg v) h =
      (deliver-Keeps IsOrderly-reads IsOrderly-calls IsOrderly-logs IsOrderly-writes show_selector p
          msg).keep
        v h
  Step-IsOrderly _ _ (opened p v) h = note_connected-IsOrderly p v h
  Step-IsOrderly _ _ (watched cm v) h = (watch-Keeps IsOrderly-reads cm).keep v h
  Step-IsOrderly _ _ (elsewhere cluster lib v) h = h

  -- In every state that a controller reaches from a fresh one, whatever its calls answer, each
  -- connection in the map is a client object whose three handlers act for the monitor of that key
  -- and answer on that connection, and a key is marked as started exactly if it has a connection.
  pub Reachable-IsOrderly : (w : World env) → Reachable show_selector quote w → IsOrderly w
  Reachable-IsOrderly _ (fresh w f) = fresh-IsOrderly w f
  Reachable-IsOrderly _ (step v w r s) = Step-IsOrderly v w s (Reachable-IsOrderly v r)
