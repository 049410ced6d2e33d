-- ===== src/Controller/Ending.antt =====
-- Actions that come to an end: the rules for values, errors and panics of the actions in
-- operator/controllers/collectormonitor_controller.go.
use collectorctrl_k8s_code.Common.{
  Bool, true, false, Option, none, some, Text, ◌⊎◌, inl, inr, GoError, Outcome, ok, err, panic,
  if◌then◌else◌,
}
use collectorctrl_k8s_code.Controller.Action.{
  Env, World, Act, pure, raise, attempt, in_context, read, ask, note, continue, caught, wrapped,
  answered, failed, ◌>>=◌,
}
use collectorctrl_k8s_code.Controller.Cluster.{Answer}
use collectorctrl_k8s_code.Controller.Keeping.{Keeps}

abbrev pub Always : {A : Type 0} → A → Type 0
Always a = Unit

-- A value or an error as said, and no panic.
abbrev pub EndsWell : {A : Type 0} → (GoError → Type 0) → (A → Type 0) → Outcome A → Type 0
EndsWell E P (ok a) = P a
EndsWell E P (err e) = E e
EndsWell E P panic = ⊥

-- An action that, where a property holds, ends with a value or an error as said.
pub record Ends {env : Env} {A : Type 0} (I : World env → Type 0) (E : GoError → Type 0)
    (P : A → Type 0) (m : Act env A) : Type 0 where
  pub ends : (w : World env) → I w → EndsWell E P (m w).0

-- What is said of a value that `attempt` has looked at.
abbrev pub OnSuccess : {A : Type 0} → (A → Type 0) → GoError ⊎ A → Type 0
OnSuccess P (inl e) = Unit
OnSuccess P (inr a) = P a

module _ {A : Type 0} (P : A → Type 0) where
  caught-EndsWell :
      (E F : GoError → Type 0) (r : Outcome A)
      → EndsWell E P r
      → EndsWell F (OnSuccess P) (caught r)
  caught-EndsWell E F (ok a) h = h
  caught-EndsWell E F (err e) h = tt
  caught-EndsWell E F panic h = h

  wrapped-EndsWell :
      (E : GoError → Type 0) (context : Text) (r : Outcome A)
      → EndsWell E P r
      → EndsWell Always P (wrapped context r)
  wrapped-EndsWell E context (ok a) h = h
  wrapped-EndsWell E context (err e) h = tt
  wrapped-EndsWell E context panic h = h

answered-EndsWell : {A : Type 0} (r : GoError ⊎ A) → EndsWell Always Always (answered r)
answered-EndsWell (inl e) = tt
answered-EndsWell (inr a) = tt

pub failed-EndsWell : (e : Option GoError) → EndsWell Always Always (failed e)
failed-EndsWell none = tt
failed-EndsWell (some e) = tt

module _ {env : Env} {I : World env → Type 0} where
  pub pure-Ends :
      {A : Type 0} {E : GoError → Type 0} {P : A → Type 0} (a : A)
      → P a
      → Ends I E P (pure {env = env} a)
  pure-Ends a h = record { ends = λ w _. h }

  pub raise-Ends :
      {A : Type 0} {E : GoError → Type 0} {P : A → Type 0} (e : GoError)
      → E e
      → Ends I E P (raise {env = env} {A = A} e)
  raise-Ends e h = record { ends = λ w _. h }

  pub read-Ends : {A : Type 0} {E : GoError → Type 0} (f : World env → A) → Ends I E Always (read f)
  read-Ends f = record { ends = λ w _. tt }

  pub note-Ends :
      {E : GoError → Type 0} (f : env.cluster.State → env.cluster.State)
      → Ends I E Always (note {env = env} f)
  note-Ends f = record { ends = λ w _. tt }

  pub attempt-Ends :
      {A : Type 0} {E F : GoError → Type 0} {P : A → Type 0} {m : Act env A}
      → Ends I E P m
      → Ends I F (OnSuccess P) (attempt m)
  attempt-Ends {E} {F} {P} {m} k = record {
    ends = λ w h. caught-EndsWell P E F (m w).0 (k.ends w h);
  }

  pub in_context-Ends :
      {A : Type 0} {E : GoError → Type 0} {P : A → Type 0} (context : Text) {m : Act env A}
      → Ends I E P m
      → Ends I Always P (in_context context m)
  in_context-Ends {E} {P} context {m} k = record {
    ends = λ w h. wrapped-EndsWell P E context (m w).0 (k.ends w h);
  }

  pub ask-Ends :
      {A : Type 0} (call : env.cluster.State → Answer env.cluster.State A)
      → Ends I Always Always (ask call)
  ask-Ends call = record { ends = λ w h. answered-EndsWell (call w.cluster).0 }

  pub if-Ends :
      {A : Type 0} {E : GoError → Type 0} {P : A → Type 0} (b : Bool) {m n : Act env A}
      → Ends I E P m
      → Ends I E P n
      → Ends I E P (if b then m else n)
  if-Ends true k l = k
  if-Ends false k l = l

  pub sum-Ends :
      {A B : Type 0} {E : GoError → Type 0} {P : A → Type 0} {Q : B → Type 0} (x : GoError ⊎ A)
      {f : GoError → Act env B} {g : A → Act env B}
      → OnSuccess P x
      → ((e : GoError) → Ends I E Q (f e))
      → ((a : A) → P a → Ends I E Q (g a))
      → Ends I E Q (elim x [ inl e ↦ f e | inr a ↦ g a ])
  sum-Ends (inl e) h k l = k e
  sum-Ends (inr a) h k l = l a h

  continue-Ends :
      {A B : Type 0} {E : GoError → Type 0} {P : A → Type 0} {Q : B → Type 0} (r : Outcome A)
      {f : A → Act env B}
      → EndsWell E P r
      → ((a : A) → P a → Ends I E Q (f a))
      → Ends I E Q (continue r f)
  continue-Ends (ok a) h k = k a h
  continue-Ends (err e) h k = record { ends = λ w _. h }
  continue-Ends panic h k = absurd h

  pub bind-Ends :
      {A B : Type 0} {E : GoError → Type 0} {P : A → Type 0} {Q : B → Type 0} {m : Act env A}
      {f : A → Act env B}
      → Keeps I m
      → Ends I E P m
      → ((a : A) → P a → Ends I E Q (f a))
      → Ends I E Q (m >>= f)
  bind-Ends {m} k e l = record {
    ends = λ w h. (continue-Ends (m w).0 (e.ends w h) l).ends (m w).1 (k.keep w h);
  }
