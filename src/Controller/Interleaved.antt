-- ===== src/Controller/Interleaved.antt =====
-- Reconciliations, messages and watch events of
-- operator/controllers/collectormonitor_controller.go that run at the same time. The mutex makes
-- opening and closing a connection one part each; the other parts are the single calls of a client
-- object and of the cluster.
use collectorctrl_k8s_code.Common.{ℕ, Option, GoError, Text}
use collectorctrl_k8s_code.Monitor.{CollectorMonitor, WorkloadSelector}
use collectorctrl_k8s_code.Opamp.Session.{set_effective_config}
use collectorctrl_k8s_code.Controller.Cluster.{Workload}
use collectorctrl_k8s_code.Controller.Action.{Env, World, ClientObject, call_client, update_client}
use collectorctrl_k8s_code.Controller.Connection.{ensure_opamp_connection, cleanup_opamp_client}
use collectorctrl_k8s_code.Controller.Steps.{KeepsReads, KeepsCalls, KeepsEffects}
use collectorctrl_k8s_code.Controller.Connected.{IsOrderly, IsOrderly-calls, IsOrderly-effects}
use collectorctrl_k8s_code.Controller.Messaging.{KeepsLogs, KeepsWrites, deliver-Keeps}
use collectorctrl_k8s_code.Controller.Paths.{reconcile-Keeps}
use collectorctrl_k8s_code.Controller.Running.{
  IsFresh, note_connected, Step, reconciled, delivered, opened, watched, elsewhere, watch-Keeps,
  fresh-IsOrderly, note_connected-IsOrderly,
}

module _ {env : Env} where
  -- What happens at once: every change of the cluster, that of a call included, is `meanwhile`.
  pub data Part : World env → World env → Type 0 where
    ensures :
        (m : CollectorMonitor) (wl : Workload) (w : World env)
        → Part w (ensure_opamp_connection m wl w).1
    cleans : (ns name : Text) (w : World env) → Part w (cleanup_opamp_client ns name w).1
    calls :
        (p : ℕ) (method : ClientObject env → env.lib.State → Option GoError × env.lib.State)
        (w : World env)
        → Part w (call_client p method w).1
    configures :
        (p : ℕ) (yaml : Text) (w : World env)
        → Part w (update_client p (set_effective_config env.lib yaml) w).1
    connects : (p : ℕ) (w : World env) → Part w (note_connected p w).1
    meanwhile :
        (cluster : env.cluster.State) (lib : env.lib.State) (w : World env)
        → Part w (record w { cluster = cluster; lib = lib })

  -- Any parts of any reconciliations and messages, in any order.
  pub data Parts : World env → World env → Type 0 where
    done : (w : World env) → Parts w w
    part : (v w u : World env) → Parts v w → Part w u → Parts v u

  Part-IsOrderly : (v w : World env) → Part v w → IsOrderly v → IsOrderly w
  Part-IsOrderly _ _ (ensures m wl v) h = (IsOrderly-effects.ensure m wl).keep v h
  Part-IsOrderly _ _ (cleans ns name v) h = (IsOrderly-effects.cleanup ns name).keep v h
  Part-IsOrderly _ _ (calls p method v) h = (IsOrderly-calls.method p method).keep v h
  Part-IsOrderly _ _ (configures p yaml v) h = (IsOrderly-effects.reports.config p yaml).keep v h
  Part-IsOrderly _ _ (connects p v) h = note_connected-IsOrderly p v h
  Part-IsOrderly _ _ (meanwhile cluster lib v) h = h

  pub Parts-IsOrderly : (v w : World env) → Parts v w → IsOrderly v → IsOrderly w
  Parts-IsOrderly _ _ (done w) h = h
  Parts-IsOrderly _ _ (part v w u ps p) h = Part-IsOrderly w u p (Parts-IsOrderly v w ps h)

  -- From a fresh controller, however the parts of its reconciliations and messages are interleaved,
  -- each connection in the map is a client object whose handlers act for the monitor of that key
  -- and answer on that connection, and a key is marked as started exactly if it has a connection.
  pub interleaved-IsOrderly : (v w : World env) → IsFresh v → Parts v w → IsOrderly w
  interleaved-IsOrderly v w f ps = Parts-IsOrderly v w ps (fresh-IsOrderly v f)

  Parts-reads : (v : World env) → KeepsReads (Parts v)
  Parts-reads v = record {
    monitor = λ key. record { keep = λ w h. part v w _ h (meanwhile _ _ w) };
    monitors = λ ns. record { keep = λ w h. part v w _ h (meanwhile _ _ w) };
    workloads = λ kind labels ns. record { keep = λ w h. part v w _ h (meanwhile _ _ w) };
    config_map = λ key. record { keep = λ w h. part v w _ h (meanwhile _ _ w) };
    secret = λ key. record { keep = λ w h. part v w _ h (meanwhile _ _ w) };
    pods = λ labels ns. record { keep = λ w h. part v w _ h (meanwhile _ _ w) };
    time = record { keep = λ w h. part v w _ h (meanwhile _ _ w) };
  }

  Parts-calls : (v : World env) → KeepsCalls (Parts v)
  Parts-calls v = record {
    event = λ m e. record { keep = λ w h. part v w _ h (meanwhile _ _ w) };
    method = λ p f. record { keep = λ w h. part v w _ h (calls p f w) };
  }

  Parts-effects : (v : World env) → KeepsEffects (Parts v)
  Parts-effects v = record {
    reports = record {
      calls = Parts-calls v;
      status = λ m. record { keep = λ w h. part v w _ h (meanwhile _ _ w) };
      config = λ p yaml. record { keep = λ w h. part v w _ h (configures p yaml w) };
    };
    ensure = λ m wl. record { keep = λ w h. part v w _ h (ensures m wl w) };
    cleanup = λ ns name. record { keep = λ w h. part v w _ h (cleans ns name w) };
  }

  Parts-logs : (v : World env) → KeepsLogs (Parts v)
  Parts-logs v = record {
    opened = λ ns pod. record { keep = λ w h. part v w _ h (meanwhile _ _ w) };
    read_all = λ stream. record { keep = λ w h. part v w _ h (meanwhile _ _ w) };
    close = λ stream. record { keep = λ w h. part v w _ h (meanwhile _ _ w) };
  }

  Parts-writes : (v : World env) → KeepsWrites (Parts v)
  Parts-writes v = record {
    config_map = λ cm. record { keep = λ w h. part v w _ h (meanwhile _ _ w) };
    patch = λ wl p. record { keep = λ w h. part v w _ h (meanwhile _ _ w) };
  }

module _ {env : Env} (show_selector : WorkloadSelector → Text) (quote : Text → Text) where
  -- Each whole reconciliation, message, connect and watch event is a sequence of such parts, so that
  -- interleaving the parts takes in all that the controller does.
  pub Step-Parts : (v w : World env) → Step show_selector quote v w → Parts v w
  Step-Parts _ _ (reconciled req v) =
      (reconcile-Keeps (Parts-reads v) (Parts-effects v) show_selector quote req).keep v (done v)
  Step-Parts _ _ (delivered p msg v) =
      (deliver-Keeps (Parts-reads v) (Parts-calls v) (Parts-logs v) (Parts-writes v) show_selector p
          msg).keep
        v (done v)
  Step-Parts _ _ (opened p v) = part v v _ (done v) (connects p v)
  Step-Parts _ _ (watched cm v) = (watch-Keeps (Parts-reads v) cm).keep v (done v)
  Step-Parts _ _ (elsewhere cluster lib v) = part v v _ (done v) (meanwhile cluster lib v)
