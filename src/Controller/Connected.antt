-- ===== src/Controller/Connected.antt =====
-- `ensureOpAMPConnection` and `cleanupOpAMPClient` of
-- operator/controllers/collectormonitor_controller.go keep the connections consistent.
use collectorctrl_k8s_code.Common.{
  ℕ, Option, none, some, inl, inr, refl, sym, subst, Text, GoError, length, get_elem?, lookup,
  Option-cases,
}
use collectorctrl_k8s_code.Monitor.{CollectorMonitor, ConfigMapReference, SecretRef}
use collectorctrl_k8s_code.Opamp.{
  Client, ClientConfig, set_on_config_update, set_on_emergency_cmd, set_on_fetch_logs,
}
use collectorctrl_k8s_code.Opamp.Protocol.{OpampLib}
use collectorctrl_k8s_code.Opamp.Session.{start_client, set_effective_config, store_config}
use collectorctrl_k8s_code.Controller.Cluster.{Workload}
use collectorctrl_k8s_code.Controller.Action.{
  Env, World, ClientObject, Captured, load, deref, call_client, update_client,
}
use collectorctrl_k8s_code.Controller.Keeping.{
  Keeps, pure-Keeps, crash-Keeps, read-Keeps, in_context-Keeps, if-Keeps, bind-Keeps,
}
use collectorctrl_k8s_code.Controller.Connection.{
  connect, connect_new, ensure_at, ensure_opamp_connection, auth_headers, equipped, connection_key,
  client_config, cleanup_opamp_client, cleanup_at,
}
use collectorctrl_k8s_code.Controller.Connecting.{
  connect-run, started_world, new_client_at, update_client-run, update_client-missing, cleanup-run,
  cleanup-nothing,
}
use collectorctrl_k8s_code.Controller.Consistency.{
  Memory, memory_of, Serves, IsConsistent, HasHandlersOf, appended-IsConsistent,
  inserted-IsConsistent, removed-IsConsistent, forgotten-IsConsistent, updated-IsConsistent,
}
use collectorctrl_k8s_code.Controller.Steps.{KeepsReads, KeepsCalls, KeepsEffects}

abbrev pub IsOrderly : {env : Env} → World env → Type 0
IsOrderly w = IsConsistent (memory_of w)

module _ {env : Env} where
  equipped-Serves :
      (monitor : CollectorMonitor) (cfg : ClientConfig) (w : World env)
      → Serves
          (connection_key monitor.namespace monitor.name)
          (length w.store)
          ((start_client env.lib (new_client_at monitor cfg w) w.lib).1)
  unfolding start_client equipped set_on_config_update set_on_emergency_cmd set_on_fetch_logs
  equipped-Serves monitor cfg w = record {
    captured = record { monitor = monitor; client = length w.store };
    place = refl;
    monitor = refl;
    updates = refl;
    emergencies = refl;
    logs = refl;
  }

  started_world-IsOrderly :
      (key : Text) (e : Option GoError) (c : ClientObject env) (s : env.lib.State) (w : World env)
      → IsOrderly w
      → Serves key (length w.store) c
      → IsOrderly (started_world key e c s w).1
  started_world-IsOrderly key none c s w h serves =
      inserted-IsConsistent (memory_of w) key c h serves
  started_world-IsOrderly key (some e) c s w h serves = appended-IsConsistent (memory_of w) c h

  pub connect-Keeps :
      (monitor : CollectorMonitor) (cfg : ClientConfig)
      → Keeps {env = env} IsOrderly
          (connect (connection_key monitor.namespace monitor.name) monitor cfg)
  connect-Keeps monitor cfg = record {
    keep = λ w h.
        let key = connection_key monitor.namespace monitor.name in
        let (e, c, s) = start_client env.lib (new_client_at monitor cfg w) w.lib in
        subst (λ r. IsOrderly r.1) (sym (connect-run key monitor cfg w))
          (started_world-IsOrderly key e c s w h (equipped-Serves monitor cfg w));
  }

module _ {env : Env} {I : World env → Type 0} (reads : KeepsReads I) where
  pub auth_headers-Keeps :
      (monitor : CollectorMonitor) (ref : Option SecretRef)
      → Keeps I (auth_headers {env = env} monitor ref)
  unfolding auth_headers
  auth_headers-Keeps monitor none = record { keep = λ w h. h }
  auth_headers-Keeps monitor (some ref) =
      bind-Keeps (in_context-Keeps _ (reads.secret _)) λ secret. pure-Keeps _

module _ {env : Env} {I : World env → Type 0} (reads : KeepsReads I) (m : CollectorMonitor)
    (connects : (cfg : ClientConfig)
      → Keeps {env = env} I (connect (connection_key m.namespace m.name) m cfg)) where
  connect_new-Keeps :
      (w : Workload) (ref : Option ConfigMapReference)
      → Keeps I (connect_new {env = env} (connection_key m.namespace m.name) m w ref)
  unfolding connect_new
  connect_new-Keeps w none = crash-Keeps
  connect_new-Keeps w (some ref) =
      bind-Keeps (auth_headers-Keeps reads m m.spec.auth.secret_ref)
        λ headers. connects (client_config m w ref headers)

  pub ensure-Keeps : (w : Workload) → Keeps I (ensure_opamp_connection {env = env} m w)
  unfolding ensure_opamp_connection ensure_at
  ensure-Keeps w =
      bind-Keeps (read-Keeps _)
        λ started. if-Keeps started (pure-Keeps tt) (connect_new-Keeps w m.status.config_map_ref)

module _ {env : Env} where
  load_object-Keeps :
      (I : World env → Type 0) (found : Option (ClientObject env))
      → Keeps I (deref {env = env} found)
  unfolding deref
  load_object-Keeps I none = crash-Keeps
  load_object-Keeps I (some c) = pure-Keeps c

  pub load-Keeps : (I : World env → Type 0) (p : ℕ) → Keeps I (load {env = env} p)
  unfolding load
  load-Keeps I p = record { keep = λ w h. (load_object-Keeps I (get_elem? w.store p)).keep w h }

  -- A method that leaves the object as it is.
  pub call_client-Keeps :
      (J : Memory env.lib.Conn → Type 0) (p : ℕ)
      (method : ClientObject env → env.lib.State → Option GoError × env.lib.State)
      → Keeps {env = env} (λ w. J (memory_of w)) (call_client p method)
  unfolding call_client
  call_client-Keeps J p method =
      bind-Keeps (load-Keeps (λ w. J (memory_of w)) p) λ c. record { keep = λ w h. h }

pub config_kept :
    (lib : OpampLib) (yaml : Text) (conn : Option lib.Conn) (c : Client lib.Conn Captured)
    (s : lib.State)
    → HasHandlersOf c (store_config lib yaml conn c s).1
unfolding store_config
config_kept lib yaml none c s = (refl, refl, refl)
config_kept lib yaml (some conn) c s = (refl, refl, refl)

module _ {env : Env} where
  -- A method that writes to the object, but not to its handlers.
  pub update_client-IsOrderly :
      (p : ℕ)
      (method : ClientObject env
        → env.lib.State
        → Option GoError × ClientObject env × env.lib.State)
      → ((c : ClientObject env) (s : env.lib.State) → HasHandlersOf c (method c s).1)
      → (w : World env) → IsOrderly w
      → IsOrderly (update_client p method w).1
  update_client-IsOrderly p method kept w h = elim (Option-cases (get_elem? w.store p)) [
    | inl missing ↦ subst (λ r. IsOrderly r.1) (sym (update_client-missing p method w missing)) h
    | inr (c, at) ↦
        let (e, c', s) = method c w.lib in
        subst (λ r. IsOrderly r.1) (sym (update_client-run p c method w at))
          (updated-IsConsistent (memory_of w) p c c' at (kept c w.lib) h)
  ]

  config_update-IsOrderly :
      (p : ℕ) (yaml : Text) (w : World env)
      → IsOrderly w
      → IsOrderly (update_client p (set_effective_config env.lib yaml) w).1
  unfolding set_effective_config
  config_update-IsOrderly p yaml =
      update_client-IsOrderly p (set_effective_config env.lib yaml)
        (λ c s. config_kept env.lib yaml c.client c s)

  cleanup-IsOrderly : (key : Text) (w : World env) → IsOrderly w → IsOrderly (cleanup_at key w).1
  cleanup-IsOrderly key w h = elim (Option-cases (lookup key w.opamp_clients)) [
    | inl missing ↦
        subst (λ r. IsOrderly r.1) (sym (cleanup-nothing key w missing))
          (forgotten-IsConsistent (memory_of w) key missing h)
    | inr (p, e) ↦
        let (c, at, s) = h.served key p e in
        subst (λ r. IsOrderly r.1) (sym (cleanup-run key p c w e at))
          (removed-IsConsistent (memory_of w) key h)
  ]

  pub IsOrderly-reads : KeepsReads {env = env} IsOrderly
  IsOrderly-reads = record {
    monitor = λ key. record { keep = λ w h. h };
    monitors = λ ns. record { keep = λ w h. h };
    workloads = λ kind labels ns. record { keep = λ w h. h };
    config_map = λ key. record { keep = λ w h. h };
    secret = λ key. record { keep = λ w h. h };
    pods = λ labels ns. record { keep = λ w h. h };
    time = record { keep = λ w h. h };
  }

  pub IsOrderly-calls : KeepsCalls {env = env} IsOrderly
  IsOrderly-calls = record {
    event = λ m e. record { keep = λ w h. h };
    method = λ p f. call_client-Keeps IsConsistent p f;
  }

  pub IsOrderly-effects : KeepsEffects {env = env} IsOrderly
  unfolding cleanup_opamp_client
  IsOrderly-effects = record {
    reports = record {
      calls = IsOrderly-calls;
      status = λ m. record { keep = λ w h. h };
      config = λ p yaml. record { keep = config_update-IsOrderly p yaml };
    };
    ensure = λ m w. ensure-Keeps IsOrderly-reads m (connect-Keeps m) w;
    cleanup = λ ns name. record { keep = cleanup-IsOrderly (connection_key ns name) };
  }
