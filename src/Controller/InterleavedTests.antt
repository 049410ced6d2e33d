-- ===== src/Controller/InterleavedTests.antt =====
-- The theorems on interleaved parts of operator/controllers/collectormonitor_controller.go, at two
-- reconciliations of different monitors whose parts alternate.
use collectorctrl_k8s_code.Common.{none, [], refl, text}
use collectorctrl_k8s_code.Monitor.{CollectorMonitor}
use collectorctrl_k8s_code.Opamp.Session.{report_health}
use collectorctrl_k8s_code.Api.{unknown}
use collectorctrl_k8s_code.Controller.Action.{World, call_client}
use collectorctrl_k8s_code.Controller.Connection.{ensure_opamp_connection, cleanup_opamp_client}
use collectorctrl_k8s_code.Controller.Consistency.{memory_of}
use collectorctrl_k8s_code.Controller.Connected.{IsOrderly}
use collectorctrl_k8s_code.Controller.Running.{note_connected}
use collectorctrl_k8s_code.Controller.Table.{Makes, IsExclusive}
use collectorctrl_k8s_code.Controller.Refining.{table_of}
use collectorctrl_k8s_code.Controller.Interleaved.{
  Parts, done, part, ensures, calls, connects, cleans, interleaved-IsOrderly,
}
use collectorctrl_k8s_code.Controller.Exclusive.{interleaved-IsExclusive}
use collectorctrl_k8s_code.Controller.Simulated.{monitor, workload, usual, env_of, start, opamp}

abbrev other : CollectorMonitor
other = record monitor { name = text "other" }

abbrev first : World (env_of usual none)
first = start usual none

abbrev one_open : World (env_of usual none)
one_open =
    (ensure_opamp_connection {env = env_of usual none} monitor (workload (text "agent")) first).1

abbrev both_open : World (env_of usual none)
both_open =
    (ensure_opamp_connection {env = env_of usual none} other (workload (text "other")) one_open).1

abbrev one_connected : World (env_of usual none)
one_connected = (note_connected {env = env_of usual none} 0 both_open).1

abbrev reported : World (env_of usual none)
reported =
    (call_client {env = env_of usual none} 0 (report_health (opamp none) unknown [])
      one_connected).1

abbrev one_left : World (env_of usual none)
one_left = (cleanup_opamp_client {env = env_of usual none} (text "obs") (text "other") reported).1

alternating : Parts {env = env_of usual none} first one_left
alternating =
    part first reported one_left
      (part first one_connected reported
        (part first both_open one_connected
          (part first one_open both_open
            (part first first one_open (done first)
              (ensures monitor (workload (text "agent")) first))
            (ensures other (workload (text "other")) one_open))
          (connects 0 both_open))
        (calls 0 (report_health (opamp none) unknown []) one_connected))
      (cleans (text "obs") (text "other") reported)

interleaved-IsOrderly_example : IsOrderly {env = env_of usual none} one_left
interleaved-IsOrderly_example =
    interleaved-IsOrderly {env = env_of usual none} first one_left (refl, refl, refl) alternating

interleaved-IsExclusive_example :
    Makes (table_of (memory_of {env = env_of usual none} one_left))
    × IsExclusive (table_of (memory_of {env = env_of usual none} one_left))
interleaved-IsExclusive_example =
    interleaved-IsExclusive {env = env_of usual none} first one_left (refl, refl, refl) alternating
