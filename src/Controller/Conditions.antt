-- ===== src/Controller/Conditions.antt =====
-- What `setCondition` of operator/controllers/collectormonitor_controller.go does to the conditions.
use collectorctrl_k8s_code.Common.{
  ℕ, Option, none, some, List, [], ◌∷◌, ◌≡◌, ◌≢◌, ap, ◌∙◌, Text, ◌==◌, ==_iff, if◌then◌else◌, arith,
  count_if, eqb, ◌&&◌,
}
use collectorctrl_k8s_code.Monitor.{Condition}
use collectorctrl_k8s_code.Controller.Status.{put_condition}

-- The condition of a type that a reader finds first.
pub find_condition : Text → List Condition → Option Condition
find_condition ctype [] = none
find_condition ctype (c ∷ cs) = if c.type == ctype then some c else find_condition ctype cs

-- How the conditions are read after one of them was set.
pub record Becomes (cond : Condition) (before after : List Condition) : Type 0 where
  pub absent : find_condition cond.type before ≡ none → find_condition cond.type after ≡ some cond
  pub same_status :
      (old : Condition)
      → find_condition cond.type before ≡ some old
      → old.status ≡ cond.status
      → find_condition cond.type after ≡ some (record old { message = cond.message })
  pub new_status :
      (old : Condition)
      → find_condition cond.type before ≡ some old
      → old.status ≢ cond.status
      → find_condition cond.type after ≡ some cond
  pub others :
      (ctype : Text) → ctype ≢ cond.type → find_condition ctype after ≡ find_condition ctype before

abbrev pub count_type : Text → List Condition → ℕ
count_type ctype = count_if (λ c. c.type == ctype)

abbrev replaced_or_kept : Condition → Condition → Condition
replaced_or_kept cond old =
    if old.status == cond.status then record old { message = cond.message } else cond

abbrev merged : Condition → Option Condition → Condition
merged cond none = cond
merged cond (some old) = replaced_or_kept cond old

find_condition-merged :
    (cond : Condition) (ctype : Text) (cs : List Condition)
    → find_condition ctype (put_condition cond cs) ≡ (
        if cond.type == ctype
        then some (merged cond (find_condition ctype cs))
        else find_condition ctype cs)
unfolding find_condition put_condition
find_condition-merged cond ctype [] = ground arith
find_condition-merged cond ctype (c ∷ cs) = ground (
  arith,
  find_condition-merged cond ctype cs,
  ==_iff cond.type ctype,
  ==_iff c.type cond.type,
  ==_iff c.type ctype,
)

find_condition-own :
    (cond : Condition) (cs : List Condition)
    → find_condition cond.type (put_condition cond cs)
      ≡ some (merged cond (find_condition cond.type cs))
find_condition-own cond cs =
    ground (arith, find_condition-merged cond cond.type cs, ==_iff cond.type cond.type)

-- After a condition is set, one that was absent is there; one that was there with the same status
-- keeps everything, its transition time included, but for the message; one with another status, be
-- it true, false or unknown, is replaced. The conditions of other types stay as they are.
pub find_condition-put :
    (cond : Condition) (cs : List Condition) → Becomes cond cs (put_condition cond cs)
find_condition-put cond cs = record {
  absent = λ h. find_condition-own cond cs ∙ ap (λ o. some (merged cond o)) h;
  same_status = λ old h e.
      find_condition-own cond cs
      ∙ ap (λ o. some (merged cond o)) h
      ∙ ground (arith, ==_iff old.status cond.status);
  new_status = λ old h e.
      find_condition-own cond cs
      ∙ ap (λ o. some (merged cond o)) h
      ∙ ground (arith, ==_iff old.status cond.status);
  others = λ ctype e. ground (arith, find_condition-merged cond ctype cs, ==_iff cond.type ctype);
}

-- Only the first condition of a type adds one to the number of conditions of that type, and no
-- condition goes away.
pub count_type-put :
    (cond : Condition) (ctype : Text) (cs : List Condition)
    → count_type ctype (put_condition cond cs)
      ≡ (if cond.type == ctype && eqb (count_type ctype cs) 0 then 1 else count_type ctype cs)
unfolding put_condition
count_type-put cond ctype [] = ground arith
count_type-put cond ctype (c ∷ cs) = ground (
  arith,
  count_type-put cond ctype cs,
  ==_iff cond.type ctype,
  ==_iff c.type cond.type,
  ==_iff c.type ctype,
)
