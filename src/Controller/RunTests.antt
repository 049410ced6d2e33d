-- ===== src/Controller/RunTests.antt =====
-- The theorems on runs of operator/controllers/collectormonitor_controller.go, at runs on the
-- simulated cluster.
use collectorctrl_k8s_code.Common.{
  ℕ, suc, eqb, if◌then◌else◌, inr, false, none, some, List, [], ◌∷◌, ◌≡◌, refl, Text, text, ◌==◌,
  All, inl, ok, lookup, lookup_or, insert, get_elem?,
}
use collectorctrl_k8s_code.Monitor.{CollectorMonitor}
use collectorctrl_k8s_code.Opamp.{Client, on_message}
use collectorctrl_k8s_code.Opamp.Session.{
  start_client, handshake, report_health, set_effective_config,
}
use collectorctrl_k8s_code.Opamp.Protocol.{MessageData}
use collectorctrl_k8s_code.Controller.Cluster.{ObjectKey, kind_name}
use collectorctrl_k8s_code.Controller.Action.{
  call_client, Env, World, Captured, load, deref, allocate, update_client,
}
use collectorctrl_k8s_code.Controller.Discovery.{
  discover_workload, discover_among, first_fit, name_fits, kind_fits, discover_config_map,
  named_config_map, config_map_key, detect_key,
}
use collectorctrl_k8s_code.Controller.Connection.{
  connection_key, ensure_opamp_connection, ensure_at, connect_new, connect, auth_headers,
}
use collectorctrl_k8s_code.Controller.Connected.{IsOrderly}
use collectorctrl_k8s_code.Controller.Running.{
  Reachable, fresh, step, reconciled, elsewhere, Reachable-IsOrderly,
}
use collectorctrl_k8s_code.Controller.Ownership.{
  ActsFor, Forgets, Closes, on_message-ActsFor, reconcile_deleted,
}
use collectorctrl_k8s_code.Api.{kubernetes}
use collectorctrl_k8s_code.Controller.Fleet.{report_fleet_health}
use collectorctrl_k8s_code.Controller.Status.{set_condition}
use collectorctrl_k8s_code.Controller.Again.{ensure_again}
use collectorctrl_k8s_code.Controller.ReadOnly.{IsKeptByReads, reconcile_read_only}
use collectorctrl_k8s_code.Controller.Reconcile.{
  reference_to, reconcile, after, reconcile_monitor, with_workload, connect_and_report,
  report_and_update, give_up,
}
use collectorctrl_k8s_code.Controller.Simulated.{
  monitor, workload, usual, env_of, opamp, simulated, start, show_selector, quote, not_found,
  Counts, spec,
}

abbrev request : ObjectKey
request = record { namespace = text "obs"; name = text "mon" }

abbrev first : World (env_of usual none)
first = start usual none

abbrev pub reached : World (env_of usual none)
reached = (reconcile {env = env_of usual none} show_selector quote request first).1

pub reached-Reachable : Reachable {env = env_of usual none} show_selector quote reached
reached-Reachable = step first reached (fresh first (refl, refl, refl)) (reconciled request first)

Reachable-IsOrderly_example : IsOrderly {env = env_of usual none} reached
Reachable-IsOrderly_example =
    Reachable-IsOrderly {env = env_of usual none} show_selector quote reached reached-Reachable

abbrev pub monitor_key : Text
monitor_key = connection_key (text "obs") (text "mon")

abbrev no_client : Client ℕ Captured
no_client = record {
  config = record {
    endpoint = [];
    headers = [];
    tls_config = none;
    agent_id = [];
    agent_type = kubernetes;
    labels = [];
    k8s_context = none;
  };
  client = none;
  connected = false;
  effective_config = [];
  on_config_update = none;
  on_emergency_cmd = none;
  on_fetch_logs = none;
}

abbrev pub first_object : List (Client ℕ Captured) → Client ℕ Captured
first_object [] = no_client
first_object (c ∷ l) = c

-- The key has the first client, which has the first connection.
pub reached_facts :
    (lookup monitor_key reached.opamp_clients ≡ some 0)
    × (get_elem? reached.store 0 ≡ some (first_object reached.store))
    × ((first_object reached.store).client ≡ some 0)
unfolding reconcile reconcile_monitor with_workload connect_and_report discover_workload
    discover_among first_fit name_fits kind_fits discover_config_map named_config_map
    ensure_opamp_connection ensure_at connect_new connect auth_headers allocate update_client load
    deref start_client handshake text ◌==◌ connection_key lookup lookup_or insert kind_name
    report_and_update give_up report_fleet_health call_client report_health reference_to
    config_map_key detect_key set_effective_config set_condition
reached_facts = (refl, refl, refl)

abbrev emergency_message : MessageData
emergency_message = record {
  remote_config = none;
  custom_message = some (record {
    capability = text "collectorctrl";
    type = text "emergency";
    content = text "a: 2";
  });
}

on_message-ActsFor_example :
    All (ActsFor monitor_key 0) (on_message (first_object reached.store) emergency_message)
on_message-ActsFor_example =
    on_message-ActsFor {env = env_of usual none} show_selector quote reached reached-Reachable
      monitor_key 0 (first_object reached.store) emergency_message reached_facts.0 reached_facts.1

-- A cluster whose monitor is there until something else counts a write.
abbrev leaving : Env
leaving = record {
  cluster = record (simulated usual) {
    get_monitor = λ key s. ((if eqb s.0 0 then inr monitor else inl not_found), s);
  };
  lib = record (opamp none) { perform = λ conn call s. (none, suc s) };
}

abbrev before_all : World leaving
before_all = record {
  opamp_clients = [];
  opamp_started = [];
  default_secret_key = [];
  has_clientset = false;
  store = [];
  cluster = (0, 0);
  lib = 0;
}

abbrev opened_once : World leaving
opened_once = (reconcile {env = leaving} show_selector quote request before_all).1

abbrev deleted : World leaving
deleted = record opened_once { cluster = (1, 0) }

deleted-Reachable : Reachable {env = leaving} show_selector quote deleted
deleted-Reachable =
    step opened_once deleted
      (step before_all opened_once (fresh before_all (refl, refl, refl))
        (reconciled request before_all))
      (elsewhere (1, 0) opened_once.lib opened_once)

reconcile_deleted_example :
    (v : World leaving) × (reconcile {env = leaving} show_selector quote request deleted
      ≡ (ok (after 0), v))
    × Forgets {env = leaving} monitor_key deleted v
    × Closes {env = leaving} monitor_key deleted v
reconcile_deleted_example =
    reconcile_deleted {env = leaving} show_selector quote deleted deleted-Reachable request
      not_found (1, 0) refl refl

-- There is a connection that is closed.
deleted_client : lookup monitor_key deleted.opamp_clients ≡ some 0
unfolding reconcile reconcile_monitor with_workload connect_and_report discover_workload
    discover_among first_fit name_fits kind_fits discover_config_map named_config_map
    ensure_opamp_connection ensure_at connect_new connect auth_headers allocate update_client load
    deref start_client handshake text ◌==◌ connection_key lookup lookup_or insert kind_name
    report_and_update give_up report_fleet_health call_client report_health reference_to
    config_map_key detect_key set_effective_config set_condition
deleted_client = refl

abbrev connected : World (env_of usual none)
connected =
    (ensure_opamp_connection {env = env_of usual none} monitor (workload (text "agent")) first).1

connected_once :
    ensure_opamp_connection {env = env_of usual none} monitor (workload (text "agent")) first
    ≡ (ok tt, connected)
unfolding ensure_opamp_connection ensure_at connect_new connect auth_headers allocate update_client
    load deref start_client handshake text ◌==◌ connection_key lookup lookup_or insert
connected_once = refl

abbrev edited : CollectorMonitor
edited = record monitor { spec = record spec { opamp_server = text "wss://elsewhere" } }

ensure_again_example :
    ensure_opamp_connection {env = env_of usual none} edited (workload (text "other")) connected
    ≡ (ok tt, connected)
ensure_again_example =
    ensure_again {env = env_of usual none} monitor edited (workload (text "agent"))
      (workload (text "other")) first connected connected_once refl refl

-- No config map and no workload is written.
abbrev IsUnwritten : Counts → Type 0
IsUnwritten s = s.0 ≡ 0

IsUnwritten-kept : IsKeptByReads (simulated usual) IsUnwritten
IsUnwritten-kept = record {
  monitor = λ key s h. h;
  monitors = λ ns s h. h;
  workloads = λ kind labels ns s h. h;
  config_map = λ key s h. h;
  secret = λ key s h. h;
  pods = λ labels ns s h. h;
  time = λ s h. h;
  event = λ m e s h. h;
  status = λ m s h. h;
}

reconcile_read_only_example :
    IsUnwritten (reconcile {env = env_of usual none} show_selector quote request first).1.cluster
reconcile_read_only_example =
    reconcile_read_only {env = env_of usual none} IsUnwritten-kept show_selector quote request first
      refl
