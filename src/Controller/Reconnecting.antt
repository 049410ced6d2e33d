-- ===== src/Controller/Reconnecting.antt =====
-- A connection that failed is tried anew: `ensureOpAMPConnection` of
-- operator/controllers/collectormonitor_controller.go after an error.
use collectorctrl_k8s_code.Common.Places.{get_elem?-last}
use collectorctrl_k8s_code.Common.{
  ℕ, length, lookup, get_elem?, ap, true, false, Option, none, some, ◌≡◌, refl, inl, inr, sym, ◌∙◌,
  subst, Text, Assoc, lookup_or, arith, ok, err, panic, GoError, Outcome, Bool-cases, ==_refl,
}
use collectorctrl_k8s_code.Common.Maps.{lookup-insert}
use collectorctrl_k8s_code.Monitor.{CollectorMonitor, ConfigMapReference}
use collectorctrl_k8s_code.Opamp.{ClientConfig}
use collectorctrl_k8s_code.Opamp.Session.{start_client}
use collectorctrl_k8s_code.Controller.Cluster.{Workload}
use collectorctrl_k8s_code.Controller.Action.{Env, World, ClientObject, Act, continue}
use collectorctrl_k8s_code.Controller.Connection.{
  connection_key, ensure_opamp_connection, ensure_at, connect_new, connect, auth_headers,
  client_config,
}
use collectorctrl_k8s_code.Controller.Connecting.{connect-run, started_world, new_client_at}
use collectorctrl_k8s_code.Controller.Consistency.{Memory, memory_of}
use collectorctrl_k8s_code.Controller.Connected.{auth_headers-Keeps}
use collectorctrl_k8s_code.Controller.Refining.{memory_reads}
use collectorctrl_k8s_code.Controller.Again.{HasConnection}

-- A key that is not marked as started.
record IsUnmarked {Conn : Type 0} (key : Text) (m : Memory Conn) : Type 0 where
  unmarked : lookup_or false key m.started ≡ false

module _ {env : Env} where
  -- What an error leaves.
  abbrev Misses : Text → Outcome (Unit {0}) × World env → Type 0
  Misses key (ok a, v) = Unit
  Misses key (err e, v) = IsUnmarked key (memory_of v)
  Misses key (panic, v) = Unit

  started_world-Misses :
      (key : Text) (e : Option GoError) (c : ClientObject env) (s : env.lib.State) (w : World env)
      → IsUnmarked key (memory_of w)
      → Misses key (started_world key e c s w)
  started_world-Misses key none c s w h = tt
  started_world-Misses key (some e) c s w h = record { unmarked = h.unmarked }

  connect-Misses :
      (key : Text) (m : CollectorMonitor) (cfg : ClientConfig) (w : World env)
      → IsUnmarked key (memory_of w)
      → Misses key (connect key m cfg w)
  connect-Misses key m cfg w h =
      let (e, c, s) = start_client env.lib (new_client_at m cfg w) w.lib in
      subst (Misses key) (sym (connect-run key m cfg w)) (started_world-Misses key e c s w h)

  continue-Misses :
      {A : Type 0} (key : Text) (r : Outcome A) (f : A → Act env (Unit {0})) (w : World env)
      → IsUnmarked key (memory_of w)
      → ((a : A) → Misses key (f a w))
      → Misses key (continue r f w)
  continue-Misses key (ok a) f w h k = k a
  continue-Misses key (err e) f w h k = h
  continue-Misses key panic f w h k = tt

  connect_new-Misses :
      (key : Text) (m : CollectorMonitor) (wl : Workload) (ref : Option ConfigMapReference)
      (w : World env)
      → IsUnmarked key (memory_of w)
      → Misses key (connect_new key m wl ref w)
  unfolding connect_new
  connect_new-Misses key m wl none w h = tt
  connect_new-Misses key m wl (some ref) w h =
      let (r, v) = auth_headers m m.spec.auth.secret_ref w in
      let k =
        (auth_headers-Keeps (memory_reads (IsUnmarked key)) m m.spec.auth.secret_ref).keep w h in
      continue-Misses key r _ v k
        (λ headers. connect-Misses key m (client_config m wl ref headers) v k)

  ensure-Misses :
      (key : Text) (m : CollectorMonitor) (wl : Workload) (w : World env)
      → Misses key (ensure_at key m wl w)
  unfolding ensure_at
  ensure-Misses key m wl w = elim (Bool-cases (lookup_or false key w.opamp_started)) [
    | inl b ↦ rw b tt
    | inr b ↦ rw b (connect_new-Misses key m wl m.status.config_map_ref w (record { unmarked = b }))
  ]

  -- The client of a key is the one at the place, which has been made by `Start`.
  abbrev pub IsConnectedAt : Text → ℕ → ClientObject env → World env → Type 0
  IsConnectedAt key p c w =
      (lookup key w.opamp_clients ≡ some p) × (get_elem? w.store p ≡ some c) × HasConnection key w

  started_world-marked :
      (key : Text) (e : Option GoError) (c : ClientObject env) (s : env.lib.State) (w : World env)
      → e ≡ none
      → (v : World env) × (started_world key e c s w ≡ (ok tt, v))
        × IsConnectedAt key (length w.store) c v
  unfolding lookup_or
  started_world-marked key none c s w h =
      let (o, v) = started_world key none c s w in
      (
        v,
        refl,
        (
          ground (arith, lookup-insert key key (length w.store) w.opamp_clients, ==_refl key),
          get_elem?-last w.store c,
          ground (arith, lookup-insert key key true w.opamp_started, ==_refl key),
        ),
      )
  started_world-marked key (some e) c s w h = absurd cc

  connect_new-run :
      (key : Text) (m : CollectorMonitor) (wl : Workload) (named : Option ConfigMapReference)
      (ref : ConfigMapReference) (w : World env) (headers : Assoc Text) (x : World env)
      → named ≡ some ref
      → auth_headers m m.spec.auth.secret_ref w ≡ (ok headers, x)
      → connect_new key m wl named w ≡ connect key m (client_config m wl ref headers) x
  unfolding connect_new
  connect_new-run key m wl named ref w headers x h found = rw (h, found)

  -- After a connection that fails, the monitor is not marked as started, and the next call for it,
  -- whatever happened to the cluster and to opamp-go in between, connects anew. If the credentials
  -- are found and `Start` succeeds then, the call succeeds, and the monitor has a client of its own:
  -- a new object, at the first place that was free after the failure, as `Start` has left it.
  pub ensure_anew :
      (m : CollectorMonitor) (wl : Workload) (ref : ConfigMapReference) (w v : World env)
      (e : GoError)
      → ensure_opamp_connection m wl w ≡ (err e, v)
      → m.status.config_map_ref ≡ some ref
      → (cluster : env.cluster.State) (lib : env.lib.State) (headers : Assoc Text) (x : World env)
      → auth_headers m m.spec.auth.secret_ref (record v { cluster = cluster; lib = lib })
        ≡ (ok headers, x)
      → (c : ClientObject env) (l : env.lib.State)
      → start_client env.lib (new_client_at m (client_config m wl ref headers) x) x.lib
        ≡ (none, c, l)
      → let key = connection_key m.namespace m.name in
        (lookup_or false key v.opamp_started ≡ false)
        × (u : World env) × (ensure_opamp_connection m wl
              (record v { cluster = cluster; lib = lib })
            ≡ (ok tt, u))
        × IsConnectedAt key (length v.store) c u
  unfolding ensure_opamp_connection ensure_at
  ensure_anew m wl ref w v e failed named cluster lib headers x found c l started =
      let key = connection_key m.namespace m.name in
      let cfg = client_config m wl ref headers in
      let missed = subst (Misses key) failed (ensure-Misses key m wl w) in
      let back = record v { cluster = cluster; lib = lib } in
      let J = λ (mem : Memory env.lib.Conn). mem.store ≡ v.store in
      let kept = (auth_headers-Keeps (memory_reads J) m m.spec.auth.secret_ref).keep back refl in
      let same = subst (λ r. J (memory_of r.1)) found kept in
      let (u, run, at) = started_world-marked key none c l x refl in
      let fresh = connect_new-run key m wl m.status.config_map_ref ref back headers x named found in
      let begun = ap (λ r. started_world key r.0 r.1 r.2 x) started in
      (
        missed.unmarked,
        u,
        rw (missed.unmarked) (fresh ∙ connect-run key m cfg x ∙ begun ∙ run),
        subst (λ store. IsConnectedAt key (length store) c u) same at,
      )
