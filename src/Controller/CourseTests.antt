-- ===== src/Controller/CourseTests.antt =====
-- The theorems on the courses of operator/controllers/collectormonitor_controller.go, and on its
-- table of connections, at runs on the simulated cluster.
use collectorctrl_k8s_code.Common.{
  ℕ, Option, length, false, if◌then◌else◌, ltb, none, some, [], ◌≡◌, refl, Text, text, ◌==◌, ok,
  err, GoError, Outcome, errorf, wrapf, lookup, lookup_or, insert,
}
use collectorctrl_k8s_code.Opamp.Session.{start_client, handshake}
use collectorctrl_k8s_code.Controller.Cluster.{ObjectKey, daemon_set, deployment, stateful_set}
use collectorctrl_k8s_code.Controller.Action.{
  Env, World, ClientObject, load, deref, allocate, update_client,
}
use collectorctrl_k8s_code.Controller.Consistency.{memory_of}
use collectorctrl_k8s_code.Controller.Discovery.{
  discover_workload, discover_among, first_fit, name_fits, kind_fits,
}
use collectorctrl_k8s_code.Controller.Emergency.{apply_emergency_config}
use collectorctrl_k8s_code.Controller.Connection.{
  connection_key, ensure_opamp_connection, ensure_at, connect_new, connect, auth_headers,
  client_config,
}
use collectorctrl_k8s_code.Controller.Connecting.{new_client_at}
use collectorctrl_k8s_code.Controller.Discovered.{IsListed, discover_workload_listed}
use collectorctrl_k8s_code.Controller.Reconcile.{reconcile, ReconcileResult}
use collectorctrl_k8s_code.Controller.Running.{Reachable, fresh, reconciled}
use collectorctrl_k8s_code.Controller.Table.{AtMostOne}
use collectorctrl_k8s_code.Controller.Refining.{table_of}
use collectorctrl_k8s_code.Controller.Refined.{Step-AtMostOne}
use collectorctrl_k8s_code.Controller.Selected.{ListsSelectors, HasSelector}
use collectorctrl_k8s_code.Controller.Courses.{Course}
use collectorctrl_k8s_code.Controller.Complete.{reconcile_complete}
use collectorctrl_k8s_code.Controller.EmergencyCourses.{EmergencyCourse, emergency_complete}
use collectorctrl_k8s_code.Controller.Reconnecting.{IsConnectedAt, ensure_anew}
use collectorctrl_k8s_code.Controller.Simulated.{
  monitor, workload, usual, env_of, simulated, start, show_selector, quote, reference, opamp,
}

abbrev request : ObjectKey
request = record { namespace = text "obs"; name = text "mon" }

abbrev first : World (env_of usual none)
first = start usual none

first-Reachable : Reachable {env = env_of usual none} show_selector quote first
first-Reachable = fresh first (refl, refl, refl)

abbrev reached : World (env_of usual none)
reached = (reconcile {env = env_of usual none} show_selector quote request first).1

discovered :
    discover_workload {env = env_of usual none} show_selector monitor first
    ≡ (ok (workload (text "agent")), first)
unfolding discover_workload discover_among first_fit name_fits kind_fits text ◌==◌
discovered = refl

discover_workload_listed_example : IsListed (env_of usual none) monitor (workload (text "agent"))
discover_workload_listed_example =
    discover_workload_listed {env = env_of usual none} show_selector monitor first first
      (workload (text "agent")) discovered

workload-HasSelector : (name : Text) → HasSelector (workload name)
workload-HasSelector name = record { set = λ e. cc }

usual-ListsSelectors : ListsSelectors (simulated usual)
usual-ListsSelectors daemon_set labels ns s = tt
usual-ListsSelectors deployment labels ns s =
    (workload-HasSelector (text "other"), (workload-HasSelector (text "agent"), tt))
usual-ListsSelectors stateful_set labels ns s = tt

reconcile_complete_example :
    (o : Outcome ReconcileResult × World (env_of usual none)) × Course {env = env_of usual none}
      show_selector quote monitor first o
    × (reconcile {env = env_of usual none} show_selector quote request first ≡ o)
reconcile_complete_example =
    reconcile_complete {env = env_of usual none} usual-ListsSelectors show_selector quote first
      first-Reachable request monitor (0, 0) refl

emergency_complete_example :
    (o : Outcome (Unit {0}) × World (env_of usual none)) × EmergencyCourse {env = env_of usual none}
      show_selector monitor
      (text "a: 2")
      reference
      first
      o
    × (apply_emergency_config {env = env_of usual none} show_selector monitor (text "a: 2") first
        ≡ o)
emergency_complete_example =
    emergency_complete {env = env_of usual none} usual-ListsSelectors show_selector monitor
      (text "a: 2") reference refl first

Step-AtMostOne_example :
    AtMostOne
      (table_of (memory_of {env = env_of usual none} first))
      (table_of (memory_of {env = env_of usual none} reached))
Step-AtMostOne_example =
    Step-AtMostOne {env = env_of usual none} show_selector quote first reached first-Reachable
      (reconciled request first)

abbrev refused : GoError
refused = errorf (text "refused")

-- An opamp-go that refuses every call while its counter is small.
abbrev recovering : Env
recovering = record {
  cluster = simulated usual;
  lib = record (opamp none) {
    perform = λ conn call s. ((if ltb s 5 then some refused else none), s);
  };
}

abbrev offline : World recovering
offline = record {
  opamp_clients = [];
  opamp_started = [];
  default_secret_key = [];
  has_clientset = false;
  store = [];
  cluster = (0, 0);
  lib = 0;
}

abbrev attempted : World recovering
attempted = (ensure_opamp_connection {env = recovering} monitor (workload (text "agent")) offline).1

unconnected :
    ensure_opamp_connection {env = recovering} monitor (workload (text "agent")) offline
    ≡ (err (wrapf (text "set agent description") refused), attempted)
unfolding ensure_opamp_connection ensure_at connect_new connect auth_headers allocate update_client
    load deref start_client handshake text ◌==◌ connection_key lookup lookup_or insert
unconnected = refl

abbrev recovered : World recovering
recovered = record attempted { cluster = (0, 0); lib = 10 }

without_secret : auth_headers {env = recovering} monitor none recovered ≡ (ok [], recovered)
unfolding auth_headers ensure_opamp_connection ◌==◌ lookup_or allocate update_client start_client
without_secret = refl

abbrev start_result : Option GoError × ClientObject recovering × ℕ
start_result =
    start_client recovering.lib
      (new_client_at {env = recovering} monitor
        (client_config monitor (workload (text "agent")) reference []) recovered)
      recovered.lib

started : start_result ≡ (none, start_result.1, start_result.2)
unfolding start_client handshake
started = refl

ensure_anew_example :
    (lookup_or false (connection_key (text "obs") (text "mon")) attempted.opamp_started ≡ false)
    × (u : World recovering) × (ensure_opamp_connection {env = recovering} monitor
          (workload (text "agent"))
          recovered
        ≡ (ok tt, u))
    × IsConnectedAt {env = recovering}
        (connection_key (text "obs") (text "mon"))
        (length attempted.store)
        start_result.1
        u
ensure_anew_example =
    ensure_anew {env = recovering} monitor (workload (text "agent")) reference offline attempted
      (wrapf (text "set agent description") refused) unconnected refl (0, 0) 10 [] recovered
      without_secret start_result.1 start_result.2 started
