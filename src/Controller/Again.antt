-- ===== src/Controller/Again.antt =====
-- One connection for each monitor: `ensureOpAMPConnection` of
-- operator/controllers/collectormonitor_controller.go, called again.
use collectorctrl_k8s_code.Common.{
  true, false, Option, none, some, ◌≡◌, inl, inr, sym, subst, Text, ==_refl, lookup_or, arith, ok,
  err, panic, GoError, Outcome, Bool-cases,
}
use collectorctrl_k8s_code.Common.Maps.{lookup-insert}
use collectorctrl_k8s_code.Monitor.{CollectorMonitor, ConfigMapReference}
use collectorctrl_k8s_code.Opamp.{ClientConfig}
use collectorctrl_k8s_code.Opamp.Session.{start_client}
use collectorctrl_k8s_code.Controller.Cluster.{Workload}
use collectorctrl_k8s_code.Controller.Action.{Env, World, ClientObject, Act, continue}
use collectorctrl_k8s_code.Controller.Connection.{
  connection_key, ensure_opamp_connection, ensure_at, connect_new, connect, auth_headers,
  client_config,
}
use collectorctrl_k8s_code.Controller.Connecting.{connect-run, started_world, new_client_at}

abbrev pub HasConnection : {env : Env} → Text → World env → Type 0
HasConnection key w = lookup_or false key w.opamp_started ≡ true

same_key :
    (m n : CollectorMonitor)
    → n.namespace ≡ m.namespace
    → n.name ≡ m.name
    → connection_key m.namespace m.name ≡ connection_key n.namespace n.name
same_key m n ns name = cc

module _ {env : Env} where
  pub ensure-nothing :
      (key : Text) (m : CollectorMonitor) (wl : Workload) (w : World env)
      → HasConnection key w
      → ensure_at key m wl w ≡ (ok tt, w)
  unfolding ensure_at
  ensure-nothing key m wl w h = rw (h)

  -- What a run of `connect` leaves.
  abbrev pub Connects : Text → Outcome (Unit {0}) × World env → Type 0
  Connects key (ok a, v) = HasConnection key v
  Connects key (err e, v) = Unit
  Connects key (panic, v) = Unit

  started_world-Connects :
      (key : Text) (e : Option GoError) (c : ClientObject env) (s : env.lib.State) (w : World env)
      → Connects key (started_world key e c s w)
  unfolding lookup_or
  started_world-Connects key none c s w =
      ground (arith, lookup-insert key key true w.opamp_started, ==_refl key)
  started_world-Connects key (some e) c s w = tt

  connect-Connects :
      (key : Text) (m : CollectorMonitor) (cfg : ClientConfig) (w : World env)
      → Connects key (connect key m cfg w)
  connect-Connects key m cfg w =
      let (e, c, s) = start_client env.lib (new_client_at m cfg w) w.lib in
      subst (Connects key) (sym (connect-run key m cfg w)) (started_world-Connects key e c s w)

  continue-Connects :
      {A : Type 0} (key : Text) (r : Outcome A) (f : A → Act env (Unit {0})) (w : World env)
      → ((a : A) → Connects key (f a w))
      → Connects key (continue r f w)
  continue-Connects key (ok a) f w k = k a
  continue-Connects key (err e) f w k = tt
  continue-Connects key panic f w k = tt

  connect_new-Connects :
      (key : Text) (m : CollectorMonitor) (wl : Workload) (ref : Option ConfigMapReference)
      (w : World env)
      → Connects key (connect_new key m wl ref w)
  unfolding connect_new
  connect_new-Connects key m wl none w = tt
  connect_new-Connects key m wl (some ref) w =
      let (r, v) = auth_headers m m.spec.auth.secret_ref w in
      continue-Connects key r _ v
        (λ headers. connect-Connects key m (client_config m wl ref headers) v)

  ensure-Connects :
      (key : Text) (m : CollectorMonitor) (wl : Workload) (w : World env)
      → Connects key (ensure_at key m wl w)
  unfolding ensure_at
  ensure-Connects key m wl w = elim (Bool-cases (lookup_or false key w.opamp_started)) [
    | inl b ↦ rw b b
    | inr b ↦ rw b (connect_new-Connects key m wl m.status.config_map_ref w)
  ]

  -- After a call that succeeds, a call for a monitor of the same name and namespace succeeds and
  -- changes nothing, whatever its specification and workload.
  pub ensure_again :
      (m n : CollectorMonitor) (wl vl : Workload) (w v : World env)
      → ensure_opamp_connection m wl w ≡ (ok tt, v)
      → n.namespace ≡ m.namespace
      → n.name ≡ m.name
      → ensure_opamp_connection n vl v ≡ (ok tt, v)
  unfolding ensure_opamp_connection
  ensure_again m n wl vl w v h ns name =
      let key = connection_key m.namespace m.name in
      let same = same_key m n ns name in
      ensure-nothing (connection_key n.namespace n.name) n vl v
        (subst (λ k. HasConnection k v) same (subst (Connects key) h (ensure-Connects key m wl w)))
