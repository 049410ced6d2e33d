-- ===== src/Operator/Tests.antt =====
-- The theorem on cmd/operator/main.go, at a small run-time system.
use collectorctrl_k8s_code.Common.{
  ◌∷◌, ℕ, suc, true, none, some, [], ◌≡◌, refl, text, inr, GoError, errorf,
}
use collectorctrl_k8s_code.Monitor.Scheme.{SchemeLib}
use collectorctrl_k8s_code.Operator.{
  CommandLine, Runtime, Process, exited, main, main_parts, set_up_with_manager, run_manager,
  new_reconciler, with_maps, registration,
}
use collectorctrl_k8s_code.Operator.Rules.{Goes, begun, operator_controller}
use collectorctrl_k8s_code.Operator.Startup.{main-Goes}

abbrev no_scheme : SchemeLib
no_scheme = record {
  Scheme = ℕ;
  Builder = ℕ;
  new_scheme = 0;
  empty_builder = 0;
  register = λ f b. suc b;
  run_builder = λ b s. (none, s);
  add_known_type = λ k g s. suc s;
  add_to_group_version = λ v s. s;
  add_client_go = λ s. (none, s);
  knows = λ s k g. Unit;
}

abbrev lost : GoError
lost = errorf (text "leader election lost")

-- Every part of the start goes well, and the manager ends with an error.
abbrev losing : Runtime no_scheme
losing = record {
  State = ℕ;
  RestConfig = Unit;
  Manager = Unit;
  Clientset = Unit;
  get_config = λ s. (inr tt, suc s);
  new_manager = λ config options s. (inr tt, suc s);
  new_clientset = λ mgr s. (inr tt, suc s);
  complete = λ mgr c s. (none, suc s);
  add_healthz_check = λ mgr name s. (none, suc s);
  add_readyz_check = λ mgr name s. (none, suc s);
  start = λ mgr s. (some lost, suc s);
}

abbrev flags : CommandLine
flags = record {
  metrics_bind_address = none;
  health_probe_bind_address = some (text ":9090");
  leader_elect = some true;
}

abbrev process : Process ℕ
process = record { runtime = 0; log = []; controllers = [] }

main-Goes_example :
    Goes losing 0 flags (text "s3cret") begun process (main losing 0 flags (text "s3cret") process)
main-Goes_example = main-Goes losing 0 flags (text "s3cret") process

-- The manager was started with its controller, and its error ends the process.
lost_leader : main losing 0 flags (text "s3cret") process ≡ (
  exited 1,
  record {
    runtime = 7;
    log = text "starting manager" ∷ text "problem running manager" ∷ [];
    controllers = operator_controller (text "s3cret") ∷ [];
  },
)
unfolding main main_parts set_up_with_manager run_manager new_reconciler with_maps registration
lost_leader = refl
