-- ===== src/Controller/ReadOnly.antt =====
-- What a reconciliation of operator/controllers/collectormonitor_controller.go does to the cluster.
use collectorctrl_k8s_code.Common.{ℕ, Option, none, some, Text, Assoc, GoError, lookup, subst, sym}
use collectorctrl_k8s_code.Monitor.{CollectorMonitor, WorkloadSelector}
use collectorctrl_k8s_code.Opamp.{ClientConfig}
use collectorctrl_k8s_code.Opamp.Session.{set_effective_config, start_client, stop_client}
use collectorctrl_k8s_code.Controller.Cluster.{Cluster, WorkloadKind, ObjectKey, Event}
use collectorctrl_k8s_code.Controller.Action.{Env, World, ClientObject, call_client, update_client}
use collectorctrl_k8s_code.Controller.Keeping.{Keeps, pure-Keeps, bind-Keeps}
use collectorctrl_k8s_code.Controller.Connection.{
  connect, connection_key, cleanup_opamp_client, cleanup_at, stop_and_forget,
}
use collectorctrl_k8s_code.Controller.Connecting.{connect-run, started_world, new_client_at}
use collectorctrl_k8s_code.Controller.Connected.{load-Keeps, ensure-Keeps}
use collectorctrl_k8s_code.Controller.Steps.{KeepsReads, KeepsCalls, KeepsEffects}
use collectorctrl_k8s_code.Controller.Paths.{reconcile-Keeps}
use collectorctrl_k8s_code.Controller.Reconcile.{reconcile}

-- A property of the cluster that its reading calls, the clock, events and updates of a status keep.
-- The calls that change a config map, a workload or a monitor's specification need not keep it.
pub record IsKeptByReads (cluster : Cluster) (R : cluster.State → Type 0) : Type 0 where
  pub monitor : (key : ObjectKey) (s : cluster.State) → R s → R (cluster.get_monitor key s).1
  pub monitors : (ns : Text) (s : cluster.State) → R s → R (cluster.list_monitors ns s).1
  pub workloads :
      (kind : WorkloadKind) (labels : Assoc Text) (ns : Text) (s : cluster.State)
      → R s
      → R (cluster.list_workloads kind labels ns s).1
  pub config_map : (key : ObjectKey) (s : cluster.State) → R s → R (cluster.get_config_map key s).1
  pub secret : (key : ObjectKey) (s : cluster.State) → R s → R (cluster.get_secret key s).1
  pub pods :
      (labels : Assoc Text) (ns : Text) (s : cluster.State)
      → R s
      → R (cluster.list_pods labels ns s).1
  pub time : (s : cluster.State) → R s → R (cluster.now s).1
  pub event :
      (m : CollectorMonitor) (e : Event) (s : cluster.State) → R s → R (cluster.record_event m e s)
  pub status : (m : CollectorMonitor) (s : cluster.State) → R s → R (cluster.update_status m s).1

module _ {env : Env} (R : env.cluster.State → Type 0) where
  method-Keeps :
      (p : ℕ) (f : ClientObject env → env.lib.State → Option GoError × env.lib.State)
      → Keeps {env = env} (λ w. R w.cluster) (call_client p f)
  unfolding call_client
  method-Keeps p f = bind-Keeps (load-Keeps (λ w. R w.cluster) p) λ c. record { keep = λ w h. h }

  update-Keeps :
      (p : ℕ)
      (f : ClientObject env → env.lib.State → Option GoError × ClientObject env × env.lib.State)
      → Keeps {env = env} (λ w. R w.cluster) (update_client p f)
  unfolding update_client
  update-Keeps p f = bind-Keeps (load-Keeps (λ w. R w.cluster) p) λ c. record { keep = λ w h. h }

  started_world-keep :
      (key : Text) (e : Option GoError) (c : ClientObject env) (s : env.lib.State) (w : World env)
      → R w.cluster
      → R (started_world key e c s w).1.cluster
  started_world-keep key none c s w h = h
  started_world-keep key (some e) c s w h = h

  connect-Keeps :
      (key : Text) (m : CollectorMonitor) (cfg : ClientConfig)
      → Keeps {env = env} (λ w. R w.cluster) (connect key m cfg)
  connect-Keeps key m cfg = record {
    keep = λ w h.
        let (e, c, s) = start_client env.lib (new_client_at m cfg w) w.lib in
        subst (λ r. R r.1.cluster) (sym (connect-run key m cfg w))
          (started_world-keep key e c s w h);
  }

  stop_and_forget-Keeps :
      (key : Text) (found : Option ℕ)
      → Keeps {env = env} (λ w. R w.cluster) (stop_and_forget key found)
  unfolding stop_and_forget
  stop_and_forget-Keeps key none = pure-Keeps tt
  stop_and_forget-Keeps key (some p) =
      bind-Keeps (method-Keeps p (λ c s. (none, stop_client env.lib c s)))
        λ _. record { keep = λ w h. h }

  cleanup-Keeps : (key : Text) → Keeps {env = env} (λ w. R w.cluster) (cleanup_at key)
  unfolding cleanup_at
  cleanup-Keeps key = record {
    keep = λ w h.
        (bind-Keeps (stop_and_forget-Keeps key (lookup key w.opamp_clients))
            (λ _. record { keep = λ w h. h })).keep
          w h;
  }

module _ {env : Env} {R : env.cluster.State → Type 0} where
  pub cluster_reads : IsKeptByReads env.cluster R → KeepsReads {env = env} (λ w. R w.cluster)
  cluster_reads k = record {
    monitor = λ key. record { keep = λ w h. k.monitor key w.cluster h };
    monitors = λ ns. record { keep = λ w h. k.monitors ns w.cluster h };
    workloads = λ kind l ns. record { keep = λ w h. k.workloads kind l ns w.cluster h };
    config_map = λ key. record { keep = λ w h. k.config_map key w.cluster h };
    secret = λ key. record { keep = λ w h. k.secret key w.cluster h };
    pods = λ l ns. record { keep = λ w h. k.pods l ns w.cluster h };
    time = record { keep = λ w h. k.time w.cluster h };
  }

  pub cluster_calls : IsKeptByReads env.cluster R → KeepsCalls {env = env} (λ w. R w.cluster)
  cluster_calls k = record {
    event = λ m e. record { keep = λ w h. k.event m e w.cluster h };
    method = method-Keeps R;
  }

  pub cluster_effects : IsKeptByReads env.cluster R → KeepsEffects {env = env} (λ w. R w.cluster)
  unfolding cleanup_opamp_client
  cluster_effects k = record {
    reports = record {
      calls = cluster_calls k;
      status = λ m. record { keep = λ w h. k.status m w.cluster h };
      config = λ p yaml. update-Keeps R p (set_effective_config env.lib yaml);
    };
    ensure = λ m w.
        ensure-Keeps (cluster_reads k) m (connect-Keeps R (connection_key m.namespace m.name) m) w;
    cleanup = λ ns name. cleanup-Keeps R (connection_key ns name);
  }

  -- A reconciliation changes no config map and no workload: what the reading calls, the clock,
  -- events and updates of a status keep of the cluster, it keeps, on every path.
  pub reconcile_read_only :
      IsKeptByReads env.cluster R
      → (show_selector : WorkloadSelector → Text) (quote : Text → Text) (req : ObjectKey)
        (w : World env)
      → R w.cluster
      → R (reconcile show_selector quote req w).1.cluster
  reconcile_read_only k show_selector quote req w h =
      (reconcile-Keeps (cluster_reads k) (cluster_effects k) show_selector quote req).keep w h
