-- ===== src/Controller/Ownership.antt =====
-- Whose connection is whose in operator/controllers/collectormonitor_controller.go.
use collectorctrl_k8s_code.Common.{
  ℕ, true, Option, none, some, ◌≡◌, refl, inl, inr, sym, ap, ◌∙◌, subst, Text, ◌==◌, ==_iff, lookup,
  arith, ok, inl, remove, get_elem?, All, All-map, GoError, if◌then◌else◌, Option-cases,
}
use collectorctrl_k8s_code.Common.Maps.{lookup-remove}
use collectorctrl_k8s_code.Monitor.{WorkloadSelector}
use collectorctrl_k8s_code.Opamp.{
  Invocation, config_update, emergency, fetch_logs, on_message, Client,
}
use collectorctrl_k8s_code.Opamp.Session.{stop_client}
use collectorctrl_k8s_code.Opamp.Protocol.{MessageData, OpampLib, stop}
use collectorctrl_k8s_code.Opamp.Messages.{IsRequested, on_message-IsRequested}
use collectorctrl_k8s_code.Controller.Cluster.{ObjectKey}
use collectorctrl_k8s_code.Controller.Action.{Env, World, Captured, ClientObject}
use collectorctrl_k8s_code.Controller.Connection.{connection_key, cleanup_opamp_client, cleanup_at}
use collectorctrl_k8s_code.Controller.Connecting.{cleanup-run, cleanup-nothing}
use collectorctrl_k8s_code.Controller.Consistency.{Serves}
use collectorctrl_k8s_code.Controller.Connected.{IsOrderly}
use collectorctrl_k8s_code.Controller.Running.{Reachable, Reachable-IsOrderly}
use collectorctrl_k8s_code.Controller.Reconcile.{reconcile, monitor_gone, after}

abbrev pub captured_of : Invocation Captured → Captured
captured_of (config_update captured update) = captured
captured_of (emergency captured cmd) = captured
captured_of (fetch_logs captured pod) = captured

-- The handler acts for a monitor of the key, and answers at the place.
abbrev pub ActsFor : Text → ℕ → Invocation Captured → Type 0
ActsFor key p i =
    let captured = captured_of i in
    (connection_key captured.monitor.namespace captured.monitor.name ≡ key) × (captured.client ≡ p)

pub served_by {ℓ} : {A : Type ℓ} {o : Option A} {a b : A} → o ≡ some a → o ≡ some b → a ≡ b
served_by h k = cc

module _ {Conn : Type 0} (key : Text) (p : ℕ) (c : Client Conn Captured) (s : Serves key p c) where
  captured-ActsFor :
      (a : Captured)
      → s.captured ≡ a
      → (connection_key a.monitor.namespace a.monitor.name ≡ key) × (a.client ≡ p)
  captured-ActsFor a e =
      subst (λ b. (connection_key b.monitor.namespace b.monitor.name ≡ key) × (b.client ≡ p)) e
        (s.monitor, s.place)

  requested-ActsFor :
      (msg : MessageData) (i : Invocation Captured) → IsRequested c msg i → ActsFor key p i
  requested-ActsFor msg (config_update a u) r = captured-ActsFor a (served_by s.updates r.0)
  requested-ActsFor msg (emergency a cmd) r = captured-ActsFor a (served_by s.emergencies r.0)
  requested-ActsFor msg (fetch_logs a pod) r = captured-ActsFor a (served_by s.logs r.0)

-- The key is in neither map, and the other keys are as they were.
abbrev pub Forgets : {env : Env} → Text → World env → World env → Type 0
Forgets key w v =
    ((j : Text) → lookup j v.opamp_clients ≡ (if key == j then none else lookup j w.opamp_clients))
    × ((j : Text)
        → lookup j v.opamp_started ≡ (if key == j then none else lookup j w.opamp_started))

-- The connection of the key, if there is one, is stopped, and nothing else is asked of opamp-go.
abbrev pub Closes : {env : Env} → Text → World env → World env → Type 0
Closes {env} key w v =
    (lookup key w.opamp_clients ≡ none → v.lib ≡ w.lib)
    × ((p : ℕ) (c : ClientObject env)
        → lookup key w.opamp_clients ≡ some p
        → get_elem? w.store p ≡ some c
        → (c.client ≡ none → v.lib ≡ w.lib)
          × ((conn : env.lib.Conn)
              → c.client ≡ some conn
              → v.lib ≡ (env.lib.perform conn stop w.lib).1))

stop_client-run :
    (lib : OpampLib) (c d : Client lib.Conn Captured) (s : lib.State)
    → c ≡ d
    → (d.client ≡ none → stop_client lib c s ≡ s)
      × ((conn : lib.Conn)
          → d.client ≡ some conn
          → stop_client lib c s ≡ (lib.perform conn stop s).1)
unfolding stop_client
stop_client-run lib c d s same = rw same ((λ h. rw h), (λ conn h. rw h))

module _ {env : Env} where
  -- In a consistent state, the cleanup comes to its end, the connection of its key is stopped, and
  -- only that key is forgotten.
  pub cleanup_at-Forgets :
      (key : Text) (w : World env)
      → IsOrderly w
      → (v : World env) × (cleanup_at key w ≡ (ok tt, v)) × Forgets key w v × Closes key w v
  cleanup_at-Forgets key w h = elim (Option-cases (lookup key w.opamp_clients)) [
    | inl missing ↦ (
      record w { opamp_started = remove key w.opamp_started },
      cleanup-nothing key w missing,
      ((λ j. ground (arith, missing, ==_iff key j)), (λ j. lookup-remove j key w.opamp_started)),
      ((λ h. refl), (λ p c h at. absurd cc)),
    )
    | inr (p, e) ↦
        let (c, at, s) = h.served key p e in
        (
          record w {
            lib = stop_client env.lib c w.lib;
            opamp_clients = remove key w.opamp_clients;
            opamp_started = remove key w.opamp_started;
          },
          cleanup-run key p c w e at,
          ((λ j. lookup-remove j key w.opamp_clients), (λ j. lookup-remove j key w.opamp_started)),
          (
            (λ h. absurd cc),
            (λ q d hq atd.
                stop_client-run env.lib c d w.lib
                  (served_by (subst (λ r. get_elem? w.store r ≡ some c) (served_by e hq) at) atd)),
          ),
        )
  ]

module _ {env : Env} (show_selector : WorkloadSelector → Text) (quote : Text → Text) where
  -- In a state that the controller reaches, two monitors never share a connection.
  pub Reachable_no_sharing :
      (w : World env)
      → Reachable show_selector quote w
      → (j k : Text) (p : ℕ) → lookup j w.opamp_clients ≡ some p
      → lookup k w.opamp_clients ≡ some p
      → j ≡ k
  Reachable_no_sharing w r j k p hj hk =
      let h = Reachable-IsOrderly show_selector quote w r in
      let (c, atc, sc) = h.served j p hj in
      let (d, atd, sd) = h.served k p hk in
      let s = subst (Serves k p) (sym (served_by atc atd)) sd in
      let same = served_by sc.updates s.updates in
      sym sc.monitor
      ∙ (ap (λ a. connection_key a.monitor.namespace a.monitor.name) same ∙ s.monitor)

  -- In a state that the controller reaches, a message on the connection of a monitor runs handlers
  -- of that monitor only, and they answer on that connection.
  pub on_message-ActsFor :
      (w : World env)
      → Reachable show_selector quote w
      → (key : Text) (p : ℕ) (c : ClientObject env) (msg : MessageData)
      → lookup key w.opamp_clients ≡ some p
      → get_elem? w.store p ≡ some c
      → All (ActsFor key p) (on_message c msg)
  on_message-ActsFor w r key p c msg h at =
      let (d, atd, s) = (Reachable-IsOrderly show_selector quote w r).served key p h in
      All-map (requested-ActsFor key p c (subst (Serves key p) (served_by atd at) s) msg)
        (on_message c msg) (on_message-IsRequested c msg).0

  -- In a state that the controller reaches, the reconciliation of a monitor that is not found
  -- succeeds and is not repeated. It stops the connection of that monitor, if there is one, and asks
  -- nothing else of opamp-go; it leaves that monitor out of both maps, and the other entries of the
  -- maps are as they were.
  pub reconcile_deleted :
      (w : World env)
      → Reachable show_selector quote w
      → (req : ObjectKey) (e : GoError) (s : env.cluster.State)
      → env.cluster.get_monitor req w.cluster ≡ (inl e, s)
      → e.is_not_found ≡ true
      → (v : World env) × (reconcile show_selector quote req w ≡ (ok (after 0), v))
        × Forgets (connection_key req.namespace req.name) w v
        × Closes (connection_key req.namespace req.name) w v
  unfolding reconcile monitor_gone cleanup_opamp_client
  reconcile_deleted w r req e s answer missing =
      let key = connection_key req.namespace req.name in
      let (v, run, forgets, closes) =
        cleanup_at-Forgets key (record w { cluster = s })
          (Reachable-IsOrderly show_selector quote w r) in
      (v, rw (answer, missing, run), forgets, closes)
