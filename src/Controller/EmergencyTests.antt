-- ===== src/Controller/EmergencyTests.antt =====
-- The theorems on emergencies and drift of operator/controllers/collectormonitor_controller.go, at
-- runs on the simulated cluster.
use collectorctrl_k8s_code.Common.{
  List, arith, hex_digit, All, ◌≢◌, ℕ, true, false, none, some, [], ◌∷◌, ◌≡◌, refl, subst, Text,
  text, ◌==◌, ok, lookup, lookup_or, show_hex, Assoc,
}
use collectorctrl_k8s_code.Monitor.{CollectorMonitor}
use collectorctrl_k8s_code.Opamp.{Client}
use collectorctrl_k8s_code.Api.{kubernetes}
use collectorctrl_k8s_code.Opamp.Protocol.{MessageData}
use collectorctrl_k8s_code.Controller.Cluster.{Pod}
use collectorctrl_k8s_code.Controller.Action.{World, Captured}
use collectorctrl_k8s_code.Controller.Fleet.{
  detect_drift, first_ready, is_pod_ready, has_ready_condition,
}
use collectorctrl_k8s_code.Common.Shown.{IsByte}
use collectorctrl_k8s_code.Controller.Drift.{
  reported_hash, detect_drift_digests, DriftCases, detect_drift_cases,
}
use collectorctrl_k8s_code.Controller.Handlers.{deliver, is_disabled}
use collectorctrl_k8s_code.Controller.Disabled.{deliver_switched_off}
use collectorctrl_k8s_code.Controller.Messaging.{KeepsLogs}
use collectorctrl_k8s_code.Controller.ReadOnly.{IsKeptByReads, cluster_calls}
use collectorctrl_k8s_code.Controller.Simulated.{
  monitor, usual, env_of, simulated, start, show_selector, quote, config_map, Counts, reference,
  spec, pod,
}

abbrev first : World (env_of usual none)
first = start usual none

abbrev old_data : Assoc Text
old_data = (text "config.yaml", text "a: 1") ∷ []

present : (lookup_or [] (text "config.yaml") old_data == []) ≡ false
unfolding lookup_or lookup text ◌==◌
present = refl

abbrev ready_pod : Pod
ready_pod = pod (text "p") true (text "0102")

is_ready : first_ready (ready_pod ∷ []) ≡ some ready_pod
unfolding first_ready is_pod_ready has_ready_condition text ◌==◌
is_ready = refl

detect_drift_cases_example :
    DriftCases {env = env_of usual none} quote monitor
      (show_hex (0 ∷ 255 ∷ []))
      ready_pod
      (0, 0)
      first
      (detect_drift {env = env_of usual none} quote monitor (config_map (some old_data)) first)
detect_drift_cases_example =
    detect_drift_cases {env = env_of usual none} quote monitor (config_map (some old_data))
      reference first (ready_pod ∷ []) (0, 0) ready_pod refl present refl refl is_ready

abbrev digest : List ℕ
digest = 1 ∷ 2 ∷ []

abbrev sum : List ℕ
sum = 0 ∷ 255 ∷ []

reported : reported_hash ready_pod ≡ show_hex digest
unfolding lookup_or lookup text ◌==◌ show_hex hex_digit
reported = refl

some_digest : digest ≢ []
some_digest h = absurd (ground arith)

bytes : All IsByte digest
bytes = (omega arith, (omega arith, tt))

sum_bytes : All IsByte sum
sum_bytes = (omega arith, (omega arith, tt))

detect_drift_digests_example :
    (digest ≡ sum
      → detect_drift {env = env_of usual none} quote monitor (config_map (some old_data)) first
        ≡ (ok tt, first))
    × (digest ≢ sum
        → detect_drift {env = env_of usual none} quote monitor (config_map (some old_data)) first
          ≡ (ok tt, record first { cluster = (0, 1) }))
detect_drift_digests_example =
    detect_drift_digests {env = env_of usual none} quote monitor (config_map (some old_data))
      reference first (ready_pod ∷ []) (0, 0) ready_pod digest refl present refl refl is_ready
      reported some_digest bytes sum_bytes

abbrev switched_off : CollectorMonitor
switched_off = record monitor {
  spec = record spec { emergency_mode = record { enabled = some false } };
}

abbrev object : Client ℕ Captured
object = record {
  config = record {
    endpoint = [];
    headers = [];
    tls_config = none;
    agent_id = [];
    agent_type = kubernetes;
    labels = [];
    k8s_context = none;
  };
  client = some 0;
  connected = true;
  effective_config = [];
  on_config_update = none;
  on_emergency_cmd = some (record { monitor = switched_off; client = 0 });
  on_fetch_logs = none;
}

abbrev with_object : World (env_of usual none)
with_object = record first { store = object ∷ [] }

abbrev emergency_message : MessageData
emergency_message = record {
  remote_config = none;
  custom_message = some (record {
    capability = text "collectorctrl";
    type = text "emergency";
    content = text "a: 2";
  });
}

-- No config map and no workload is written.
abbrev IsIdle : Counts → Type 0
IsIdle s = s.0 ≡ 0

IsIdle-kept : IsKeptByReads (simulated usual) IsIdle
IsIdle-kept = record {
  monitor = λ key s h. h;
  monitors = λ ns s h. h;
  workloads = λ kind labels ns s h. h;
  config_map = λ key s h. h;
  secret = λ key s h. h;
  pods = λ labels ns s h. h;
  time = λ s h. h;
  event = λ m e s h. h;
  status = λ m s h. h;
}

IsIdle-logs : KeepsLogs {env = env_of usual none} (λ w. IsIdle w.cluster)
IsIdle-logs = record {
  opened = λ ns name. record { keep = λ w h. h };
  read_all = λ stream. record { keep = λ w h. h };
  close = λ stream. record { keep = λ w h. h };
}

taken : {A : Type 0} (a b : A) → some a ≡ some b → a ≡ b
taken a b h = cc

off :
    (captured : Captured)
    → object.on_emergency_cmd ≡ some captured
    → is_disabled captured.monitor.spec.emergency_mode.enabled ≡ true
off captured h =
    subst (λ (a : Captured). is_disabled a.monitor.spec.emergency_mode.enabled ≡ true)
      (taken (record { monitor = switched_off; client = 0 }) captured h) refl

deliver_switched_off_example :
    IsIdle
      (deliver {env = env_of usual none} show_selector 0 emergency_message with_object).1.cluster
deliver_switched_off_example =
    deliver_switched_off {env = env_of usual none} (cluster_calls IsIdle-kept) IsIdle-logs
      show_selector 0 emergency_message object with_object refl off refl
