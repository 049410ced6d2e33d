-- ===== src/Controller/Connecting.antt =====
-- How one call of `ensureOpAMPConnection` and of `cleanupOpAMPClient` of
-- operator/controllers/collectormonitor_controller.go runs.
use collectorctrl_k8s_code.Common.{
  ℕ, true, Option, none, some, [], ◌∷◌, ◌++◌, ◌≡◌, refl, Text, GoError, Outcome, ok, err, panic,
  length, get_elem?, set, lookup, insert, remove,
}
use collectorctrl_k8s_code.Common.Places.{get_elem?-last, set-last}
use collectorctrl_k8s_code.Monitor.{CollectorMonitor}
use collectorctrl_k8s_code.Opamp.{ClientConfig}
use collectorctrl_k8s_code.Opamp.Session.{start_client, stop_client}
use collectorctrl_k8s_code.Controller.Action.{
  Env, World, ClientObject, failed, allocate, call_client, update_client, load, deref, continue,
  modify,
}
use collectorctrl_k8s_code.Controller.Connection.{cleanup_at, stop_and_forget, connect, equipped}

module _ {env : Env} where
  pub load-run :
      (p : ℕ) (c : ClientObject env) (w : World env)
      → get_elem? w.store p ≡ some c
      → load p w ≡ (ok c, w)
  unfolding load deref
  load-run p c w h = rw (h)

  pub load-missing : (p : ℕ) (w : World env) → get_elem? w.store p ≡ none → load p w ≡ (panic, w)
  unfolding load deref
  load-missing p w h = rw (h)

  pub update_client-missing :
      (p : ℕ)
      (method : ClientObject env
        → env.lib.State
        → Option GoError × ClientObject env × env.lib.State)
      (w : World env)
      → get_elem? w.store p ≡ none
      → update_client p method w ≡ (panic, w)
  unfolding update_client
  update_client-missing p method w h = rw (load-missing p w h)

  pub call_client-run :
      (p : ℕ) (c : ClientObject env)
      (method : ClientObject env → env.lib.State → Option GoError × env.lib.State) (w : World env)
      → get_elem? w.store p ≡ some c
      → call_client p method w ≡ (let (e, s) = method c w.lib in (failed e, record w { lib = s }))
  unfolding call_client
  call_client-run p c method w h = rw (load-run p c w h)

  pub update_client-run :
      (p : ℕ) (c : ClientObject env)
      (method : ClientObject env
        → env.lib.State
        → Option GoError × ClientObject env × env.lib.State)
      (w : World env)
      → get_elem? w.store p ≡ some c
      → update_client p method w ≡ (
          let (e, c', s) = method c w.lib in
          (failed e, record w { store = set w.store p c'; lib = s }))
  unfolding update_client
  update_client-run p c method w h = rw (load-run p c w h)

  -- The client that `connect` makes, with the place it gets.
  abbrev pub new_client_at : CollectorMonitor → ClientConfig → World env → ClientObject env
  new_client_at monitor cfg w =
      equipped env cfg (record { monitor = monitor; client = length w.store })

  -- What is left after `Start` has returned.
  abbrev pub started_world :
      Text
      → Option GoError
      → ClientObject env
      → env.lib.State
      → World env
      → Outcome (Unit {0}) × World env
  started_world key none c s w = (
    ok tt,
    record w {
      store = w.store ++ c ∷ [];
      lib = s;
      opamp_clients = insert key (length w.store) w.opamp_clients;
      opamp_started = insert key true w.opamp_started;
    },
  )
  started_world key (some e) c s w = (err e, record w { store = w.store ++ c ∷ []; lib = s })

  remember : Text → World env → World env → World env
  remember key w v = record v {
    opamp_clients = insert key (length w.store) v.opamp_clients;
    opamp_started = insert key true v.opamp_started;
  }

  started_world-run :
      (key : Text) (e : Option GoError) (c : ClientObject env) (s : env.lib.State) (w : World env)
      → continue {env = env}
          (failed e)
          (λ _. modify (remember key w))
          (record w { store = w.store ++ c ∷ []; lib = s })
        ≡ started_world key e c s w
  unfolding remember
  started_world-run key none c s w = refl
  started_world-run key (some e) c s w = refl

  -- Whatever `Start` returns, its client stays in the store; the maps get it if there is no error.
  pub connect-run :
      (key : Text) (monitor : CollectorMonitor) (cfg : ClientConfig) (w : World env)
      → connect key monitor cfg w ≡ (
          let (e, c, s) = start_client env.lib (new_client_at monitor cfg w) w.lib in
          started_world key e c s w)
  unfolding connect allocate remember
  connect-run key monitor cfg w =
      let c = new_client_at monitor cfg w in
      let (e, c', s) = start_client env.lib c w.lib in
      rw (
        update_client-run (length w.store) c (start_client env.lib)
            (record w { store = w.store ++ c ∷ [] }) (get_elem?-last w.store c),
        set-last w.store c c',
        started_world-run key e c' s w,
      )

  -- The connection of a key is stopped and forgotten; with none, only the other map is written.
  pub cleanup-run :
      (key : Text) (p : ℕ) (c : ClientObject env) (w : World env)
      → lookup key w.opamp_clients ≡ some p
      → get_elem? w.store p ≡ some c
      → cleanup_at key w ≡ (
        ok tt,
        record w {
          lib = stop_client env.lib c w.lib;
          opamp_clients = remove key w.opamp_clients;
          opamp_started = remove key w.opamp_started;
        },
      )
  unfolding cleanup_at stop_and_forget
  cleanup-run key p c w h at =
      rw (h, call_client-run p c (λ c s. (none, stop_client env.lib c s)) w at)

  pub cleanup-nothing :
      (key : Text) (w : World env)
      → lookup key w.opamp_clients ≡ none
      → cleanup_at key w ≡ (ok tt, record w { opamp_started = remove key w.opamp_started })
  unfolding cleanup_at stop_and_forget
  cleanup-nothing key w h = rw (h)
