-- ===== src/Controller/Refined.antt =====
-- Each step of operator/controllers/collectormonitor_controller.go, as a step of the table.
use mathlib.Core.Path.{ap₂}
use collectorctrl_k8s_code.Common.{ℕ, none, ◌≡◌, refl, sym, subst, inl, inr, Text, GoError, lookup}
use collectorctrl_k8s_code.Monitor.{CollectorMonitor, WorkloadSelector}
use collectorctrl_k8s_code.Opamp.{on_connect}
use collectorctrl_k8s_code.Opamp.Protocol.{MessageData}
use collectorctrl_k8s_code.Controller.Cluster.{Workload, ConfigMap, ObjectKey}
use collectorctrl_k8s_code.Controller.Action.{Env, World}
use collectorctrl_k8s_code.Controller.Connection.{
  connection_key, ensure_opamp_connection, cleanup_opamp_client,
}
use collectorctrl_k8s_code.Controller.Consistency.{Memory, memory_of}
use collectorctrl_k8s_code.Controller.Keeping.{
  Keeps, sum-Keeps, pure-Keeps, raise-Keeps, attempt-Keeps,
}
use collectorctrl_k8s_code.Controller.Steps.{
  KeepsReads, discover_workload-Keeps, discover_config_map-Keeps,
}
use collectorctrl_k8s_code.Controller.Paths.{give_up-Keeps, report_and_update-Keeps}
use collectorctrl_k8s_code.Controller.Messaging.{KeepsLogs, KeepsWrites, deliver-Keeps}
use collectorctrl_k8s_code.Controller.Turning.{
  Turns, keep-Turns, then-Turns, first-Turns, attempt-Turns, if-Turns, sum-Turns,
}
use collectorctrl_k8s_code.Controller.Reconcile.{
  reconcile, monitor_gone, give_up, connect_and_report, with_workload, reconcile_monitor,
  with_reference, after, map_config_map_to_monitors,
}
use collectorctrl_k8s_code.Controller.Handlers.{deliver}
use collectorctrl_k8s_code.Controller.Running.{
  IsFresh, note_connected, Step, reconciled, delivered, opened, watched, elsewhere, Reachable,
  fresh, step, Reachable-IsOrderly, watch-Keeps,
}
use collectorctrl_k8s_code.Controller.Table.{
  Table, table_with, AtMostOne, Makes, nothing, change, empty_table,
}
use collectorctrl_k8s_code.Controller.Refining.{
  table_of, IsAt, IsWithinOne, memory_reads, memory_calls, update_client-table, IsWithinOne-reports,
  unchanged, ensure_at-change, cleanup_at-change,
}

module _ {env : Env} (T : Table) (show_selector : WorkloadSelector → Text)
    (quote : Text → Text) where
  abbrev Before : World env → Type 0
  Before w = IsAt T (memory_of w)

  abbrev After : World env → Type 0
  After w = IsWithinOne T (memory_of w)

  weaken : (w : World env) → Before w → After w
  weaken w h = unchanged T (memory_of w) h

  Before-reads : KeepsReads Before
  Before-reads = memory_reads (IsAt T)

  give_up-After :
      (ctype : Text) (seconds : ℕ) (m : CollectorMonitor) (e : GoError)
      → Keeps After (give_up {env = env} show_selector quote ctype seconds m e)
  give_up-After = give_up-Keeps (memory_reads (IsWithinOne T)) show_selector quote

  give_up-Turns :
      (ctype : Text) (seconds : ℕ) (m : CollectorMonitor) (e : GoError)
      → Turns Before After (give_up {env = env} show_selector quote ctype seconds m e)
  give_up-Turns ctype seconds m e =
      keep-Turns weaken (give_up-Keeps Before-reads show_selector quote ctype seconds m e)

  pub ensure-Turns :
      (m : CollectorMonitor) (w : Workload)
      → Turns Before After (ensure_opamp_connection {env = env} m w)
  unfolding ensure_opamp_connection
  ensure-Turns m w = record { turn = ensure_at-change T (connection_key m.namespace m.name) m w }

  pub cleanup-Turns :
      (ns name : Text) → Turns Before After (cleanup_opamp_client {env = env} ns name)
  unfolding cleanup_opamp_client
  cleanup-Turns ns name = record { turn = cleanup_at-change T (connection_key ns name) }

  connect_and_report-Turns :
      (m : CollectorMonitor) (w : Workload) (cm : ConfigMap)
      → Turns Before After (connect_and_report {env = env} show_selector quote m w cm)
  unfolding connect_and_report
  connect_and_report-Turns m w cm = first-Turns (attempt-Turns (ensure-Turns m w)) λ connected.
      sum-Keeps connected (λ e. give_up-After _ 10 m e)
        (λ _.
          report_and_update-Keeps (memory_reads (IsWithinOne T)) (IsWithinOne-reports T)
            show_selector quote m w cm)

  with_workload-Turns :
      (m : CollectorMonitor) (w : Workload)
      → Turns Before After (with_workload {env = env} show_selector quote m w)
  unfolding with_workload
  with_workload-Turns m w =
      then-Turns weaken (attempt-Keeps (discover_config_map-Keeps Before-reads m)) λ found.
        sum-Turns found (λ e. give_up-Turns _ 30 m e)
          (λ cm. connect_and_report-Turns (with_reference m cm) w cm)

  reconcile_monitor-Turns :
      (m : CollectorMonitor)
      → Turns Before After (reconcile_monitor {env = env} show_selector quote m)
  unfolding reconcile_monitor
  reconcile_monitor-Turns m =
      then-Turns weaken (attempt-Keeps (discover_workload-Keeps Before-reads show_selector m))
        λ found. sum-Turns found (λ e. give_up-Turns _ 30 m e) (λ w. with_workload-Turns m w)

  gone-Turns :
      (req : ObjectKey) (e : GoError)
      → Turns Before After (monitor_gone {env = env} show_selector quote req e)
  unfolding monitor_gone
  gone-Turns req e =
      if-Turns e.is_not_found (first-Turns (cleanup-Turns _ _) (λ _. pure-Keeps (after 0)))
        (keep-Turns weaken (raise-Keeps e))

  reconcile-Turns :
      (req : ObjectKey) → Turns Before After (reconcile {env = env} show_selector quote req)
  unfolding reconcile
  reconcile-Turns req =
      then-Turns weaken (attempt-Keeps (Before-reads.monitor req))
        λ found. sum-Turns found (λ e. gone-Turns req e) (λ m. reconcile_monitor-Turns m)

-- The memory's table is this one.
record HasTable {Conn : Type 0} (T : Table) (m : Memory Conn) : Type 0 where
  table : T ≡ table_of m

module _ {env : Env} where
  memory_logs : (J : Memory env.lib.Conn → Type 0) → KeepsLogs {env = env} (λ w. J (memory_of w))
  memory_logs J = record {
    opened = λ ns pod. record { keep = λ w h. h };
    read_all = λ stream. record { keep = λ w h. h };
    close = λ stream. record { keep = λ w h. h };
  }

  memory_writes :
      (J : Memory env.lib.Conn → Type 0) → KeepsWrites {env = env} (λ w. J (memory_of w))
  memory_writes J = record {
    config_map = λ cm. record { keep = λ w h. h };
    patch = λ w p. record { keep = λ v h. h };
  }

pub extended : (s t : Table) → Makes s → AtMostOne s t → Makes t
extended s t m (inl e) = subst Makes e m
extended s t m (inr c) = change s t m c

pub empty_world : {env : Env} (w : World env) → IsFresh w → empty_table ≡ table_of (memory_of w)
unfolding lookup
empty_world w f = ap₂ table_with (sym f.0) (sym f.2)

module _ {env : Env} (show_selector : WorkloadSelector → Text) (quote : Text → Text) where
  deliver-table :
      (p : ℕ) (msg : MessageData) (w : World env)
      → table_of (memory_of w) ≡ table_of (memory_of (deliver show_selector p msg w).1)
  deliver-table p msg w =
      let J = HasTable (table_of (memory_of w)) in
      ((deliver-Keeps (memory_reads J) (memory_calls J) (memory_logs J) (memory_writes J)
          show_selector p msg).keep
        w (record { table = refl })).table

  watch-table :
      (cm : ConfigMap) (w : World env)
      → table_of (memory_of w) ≡ table_of (memory_of (map_config_map_to_monitors cm w).1)
  watch-table cm w =
      let J = HasTable (table_of (memory_of w)) in
      ((watch-Keeps (memory_reads J) cm).keep w (record { table = refl })).table

  pub opened-table :
      (p : ℕ) (w : World env) → table_of (memory_of w) ≡ table_of (memory_of (note_connected p w).1)
  unfolding note_connected
  opened-table p w =
      update_client-table (λ t. table_of (memory_of w) ≡ t) p (λ c s. (none, on_connect c, s)) w
        refl

  -- In a state that the controller reaches, one step of it changes the table of connections at most
  -- once: a key that holds no client gets the newest one, a client is made that no key holds, or a
  -- key lets go of its client.
  pub Step-AtMostOne :
      (v w : World env)
      → Reachable show_selector quote v
      → Step show_selector quote v w
      → AtMostOne (table_of (memory_of v)) (table_of (memory_of w))
  Step-AtMostOne _ _ r (reconciled req v) =
      ((reconcile-Turns (table_of (memory_of v)) show_selector quote req).turn v
        (record { consistent = Reachable-IsOrderly show_selector quote v r; table = refl })).table
  Step-AtMostOne _ _ r (delivered p msg v) = inl (deliver-table p msg v)
  Step-AtMostOne _ _ r (opened p v) = inl (opened-table p v)
  Step-AtMostOne _ _ r (watched cm v) = inl (watch-table cm v)
  Step-AtMostOne _ _ r (elsewhere cluster lib v) = inl refl

  -- Every state that the controller reaches has a table of connections that those changes make out
  -- of the empty one.
  pub Reachable-Makes :
      (w : World env) → Reachable show_selector quote w → Makes (table_of (memory_of w))
  Reachable-Makes _ (fresh w f) = subst Makes (empty_world w f) nothing
  Reachable-Makes _ (step v w r s) =
      extended (table_of (memory_of v)) (table_of (memory_of w)) (Reachable-Makes v r)
        (Step-AtMostOne v w r s)
