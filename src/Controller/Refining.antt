-- ===== src/Controller/Refining.antt =====
-- The maps of operator/controllers/collectormonitor_controller.go against the table that they are
-- meant to be.
use collectorctrl_k8s_code.Common.{
  ℕ, false, Option, none, some, ◌≡◌, sym, subst, inl, inr, Text, GoError, Outcome, ok, err, panic,
  get_elem?, lookup, lookup_or, arith, Bool-cases, Option-cases,
}
use collectorctrl_k8s_code.Monitor.{CollectorMonitor, ConfigMapReference}
use collectorctrl_k8s_code.Opamp.{ClientConfig}
use collectorctrl_k8s_code.Opamp.Session.{start_client, set_effective_config}
use collectorctrl_k8s_code.Controller.Cluster.{Workload}
use collectorctrl_k8s_code.Controller.Action.{
  Env, World, Act, ClientObject, update_client, continue,
}
use collectorctrl_k8s_code.Controller.Connection.{
  connect, connect_new, ensure_at, cleanup_at, auth_headers, client_config,
}
use collectorctrl_k8s_code.Controller.Connecting.{
  connect-run, started_world, new_client_at, update_client-run, update_client-missing, cleanup-run,
  cleanup-nothing,
}
use collectorctrl_k8s_code.Controller.Consistency.{Memory, memory_of, IsConsistent}
use collectorctrl_k8s_code.Controller.Connected.{IsOrderly, auth_headers-Keeps, call_client-Keeps}
use collectorctrl_k8s_code.Controller.Steps.{KeepsReads, KeepsCalls, KeepsReports}
use collectorctrl_k8s_code.Controller.Table.{
  Table, Change, AtMostOne, table_with, table_with-insert, table_with-append, table_with-remove,
  table_with-set,
}

-- The table that the maps and the store stand for.
abbrev pub table_of : {Conn : Type 0} → Memory Conn → Table
table_of m = table_with m.clients m.store

-- Before a reconciliation comes to its connection, and after.
pub record IsAt {Conn : Type 0} (T : Table) (m : Memory Conn) : Type 0 where
  pub consistent : IsConsistent m
  pub table : T ≡ table_of m

pub record IsWithinOne {Conn : Type 0} (T : Table) (m : Memory Conn) : Type 0 where
  pub table : AtMostOne T (table_of m)

module _ {env : Env} where
  pub memory_reads :
      (J : Memory env.lib.Conn → Type 0) → KeepsReads {env = env} (λ w. J (memory_of w))
  memory_reads J = record {
    monitor = λ key. record { keep = λ w h. h };
    monitors = λ ns. record { keep = λ w h. h };
    workloads = λ kind labels ns. record { keep = λ w h. h };
    config_map = λ key. record { keep = λ w h. h };
    secret = λ key. record { keep = λ w h. h };
    pods = λ labels ns. record { keep = λ w h. h };
    time = record { keep = λ w h. h };
  }

  pub memory_calls :
      (J : Memory env.lib.Conn → Type 0) → KeepsCalls {env = env} (λ w. J (memory_of w))
  memory_calls J = record {
    event = λ m e. record { keep = λ w h. h };
    method = λ p f. call_client-Keeps J p f;
  }

  -- A property of the table alone is kept by a write to a client object.
  pub update_client-table :
      (P : Table → Type 0) (p : ℕ)
      (method : ClientObject env
        → env.lib.State
        → Option GoError × ClientObject env × env.lib.State)
      (w : World env)
      → P (table_of (memory_of w))
      → P (table_of (memory_of (update_client p method w).1))
  update_client-table P p method w h = elim (Option-cases (get_elem? w.store p)) [
    | inl missing ↦
        subst (λ r. P (table_of (memory_of r.1))) (sym (update_client-missing p method w missing)) h
    | inr (c, at) ↦
        let (e, c', s) = method c w.lib in
        subst (λ r. P (table_of (memory_of r.1))) (sym (update_client-run p c method w at))
          (subst P (sym (table_with-set w.opamp_clients w.store p c')) h)
  ]

  pub IsWithinOne-reports :
      (T : Table) → KeepsReports {env = env} (λ w. IsWithinOne T (memory_of w))
  IsWithinOne-reports T = record {
    calls = memory_calls (IsWithinOne T);
    status = λ m. record { keep = λ w h. h };
    config = λ p yaml. record {
      keep = λ w h. record {
        table = update_client-table (AtMostOne T) p (set_effective_config env.lib yaml) w h.table;
      };
    };
  }

module _ {Conn : Type 0} where
  changed :
      {T : Table} {m v : Memory Conn}
      → IsAt T m
      → Change (table_of m) (table_of v)
      → IsWithinOne T v
  changed {T} {m} {v} h c = record {
    table = inr (subst (λ t. Change t (table_of v)) (sym h.table) c);
  }

  pub unchanged : (T : Table) (m : Memory Conn) → IsAt T m → IsWithinOne T m
  unchanged T m h = record { table = inl h.table }

  -- The key of a monitor that has no connection.
  record IsFree (T : Table) (key : Text) (m : Memory Conn) : Type 0 where
    pub at : IsAt T m
    pub free : lookup key m.clients ≡ none

module _ {env : Env} where
  started_world-change :
      (T : Table) (key : Text) (e : Option GoError) (c : ClientObject env) (s : env.lib.State)
      (w : World env)
      → IsFree T key (memory_of w)
      → IsWithinOne T (memory_of (started_world key e c s w).1)
  started_world-change T key none c s w h =
      changed h.at (table_with-insert key w.opamp_clients w.store c h.free)
  started_world-change T key (some e) c s w h =
      changed h.at (table_with-append w.opamp_clients w.store c)

  connect-change :
      (T : Table) (key : Text) (m : CollectorMonitor) (cfg : ClientConfig) (w : World env)
      → IsFree T key (memory_of w)
      → IsWithinOne T (memory_of (connect key m cfg w).1)
  connect-change T key m cfg w h =
      let (e, c, s) = start_client env.lib (new_client_at m cfg w) w.lib in
      subst (λ r. IsWithinOne T (memory_of r.1)) (sym (connect-run key m cfg w))
        (started_world-change T key e c s w h)

  continue-change :
      {A : Type 0} (T : Table) (key : Text) (r : Outcome A) (f : A → Act env (Unit {0}))
      (v : World env)
      → IsFree T key (memory_of v)
      → ((a : A) → IsWithinOne T (memory_of (f a v).1))
      → IsWithinOne T (memory_of (continue r f v).1)
  continue-change T key (ok a) f v h k = k a
  continue-change T key (err e) f v h k = unchanged T (memory_of v) h.at
  continue-change T key panic f v h k = unchanged T (memory_of v) h.at

  connect_new-change :
      (T : Table) (key : Text) (m : CollectorMonitor) (wl : Workload)
      (ref : Option ConfigMapReference) (w : World env)
      → IsFree T key (memory_of w)
      → IsWithinOne T (memory_of (connect_new key m wl ref w).1)
  unfolding connect_new
  connect_new-change T key m wl none w h = unchanged T (memory_of w) h.at
  connect_new-change T key m wl (some ref) w h =
      let (r, v) = auth_headers m m.spec.auth.secret_ref w in
      let free =
        (auth_headers-Keeps (memory_reads (IsFree T key)) m m.spec.auth.secret_ref).keep w h in
      continue-change T key r _ v free
        (λ headers. connect-change T key m (client_config m wl ref headers) v free)

  not_started :
      (key : Text) (w : World env)
      → IsOrderly w
      → lookup_or false key w.opamp_started ≡ false
      → lookup key w.opamp_clients ≡ none
  not_started key w h b = elim (Option-cases (lookup key w.opamp_clients)) [
    | inl missing ↦ missing
    | inr (p, e) ↦ absurd (ground (arith, (h.started key).1 (λ n. cc)))
  ]

  pub ensure_at-change :
      (T : Table) (key : Text) (m : CollectorMonitor) (wl : Workload) (w : World env)
      → IsAt T (memory_of w)
      → IsWithinOne T (memory_of (ensure_at key m wl w).1)
  unfolding ensure_at
  ensure_at-change T key m wl w h = elim (Bool-cases (lookup_or false key w.opamp_started)) [
    | inl b ↦ rw b (unchanged T (memory_of w) h)
    | inr b ↦ rw b (
        connect_new-change T key m wl m.status.config_map_ref w
          (record { at = h; free = not_started key w h.consistent b }))
  ]

  pub cleanup_at-change :
      (T : Table) (key : Text) (w : World env)
      → IsAt T (memory_of w)
      → IsWithinOne T (memory_of (cleanup_at key w).1)
  cleanup_at-change T key w h = elim (Option-cases (lookup key w.opamp_clients)) [
    | inl missing ↦
        subst (λ r. IsWithinOne T (memory_of r.1)) (sym (cleanup-nothing key w missing))
          (record { table = inl h.table })
    | inr (p, e) ↦
        let (c, at, s) = h.consistent.served key p e in
        subst (λ r. IsWithinOne T (memory_of r.1)) (sym (cleanup-run key p c w e at))
          (changed h (table_with-remove key w.opamp_clients w.store))
  ]
