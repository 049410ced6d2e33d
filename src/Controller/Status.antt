-- ===== src/Controller/Status.antt =====
-- `setCondition` of operator/controllers/collectormonitor_controller.go. It writes to the object in
-- memory: the caller gets the new object back.
use collectorctrl_k8s_code.Common.{
  ℕ, Bool, true, false, List, [], ◌∷◌, ◌++◌, Text, text, ◌==◌, if◌then◌else◌,
}
use collectorctrl_k8s_code.Monitor.{Condition, CollectorMonitor}
use collectorctrl_k8s_code.Controller.Action.{Env, Act, pure, clock, ◌>>=◌}

unfoldable pub new_condition : Text → Bool → Text → ℕ → Condition
new_condition ctype status message time = record {
  type = ctype;
  status = if status then text "True" else text "False";
  observed_generation = 0;
  last_transition_time = time;
  reason = ctype ++ (if status then text "Succeeded" else text "Failed");
  message = message;
}

-- `existing.Status != cond.Status`
abbrev pub differ : Text → Text → Bool
differ a b = if a == b then false else true

-- The loop over the conditions, and the append behind it.
unfoldable pub put_condition : Condition → List Condition → List Condition
put_condition cond [] = cond ∷ []
put_condition cond (existing ∷ rest) =
    let later = put_condition cond rest in
    if existing.type == cond.type
    then (if differ existing.status cond.status
        then cond ∷ rest
        else record existing { message = cond.message } ∷ rest)
    else existing ∷ later

abbrev pub with_conditions : (List Condition → List Condition) → CollectorMonitor → CollectorMonitor
with_conditions f m = record m { status = record m.status { conditions = f m.status.conditions } }

module _ {env : Env} where
  unfoldable pub set_condition : Text → Bool → Text → CollectorMonitor → Act env CollectorMonitor
  unfolding put_condition new_condition
  set_condition ctype status message monitor = do
    time ← clock
    pure (with_conditions (put_condition (new_condition ctype status message time)) monitor)
