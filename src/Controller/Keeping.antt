-- ===== src/Controller/Keeping.antt =====
-- Actions that keep a property of the controller's memory and of the systems it calls, for
-- operator/controllers/collectormonitor_controller.go.
use collectorctrl_k8s_code.Common.{
  Bool, true, false, Option, none, some, Text, ◌⊎◌, inl, inr, GoError, Outcome, ok, err, panic,
  if◌then◌else◌,
}
use collectorctrl_k8s_code.Controller.Action.{
  Env, World, Act, pure, raise, crash, attempt, in_context, read, continue, ◌>>=◌,
}

-- Whatever an action returns, the property that held before it holds after it.
pub record Keeps {env : Env} {A : Type 0} (I : World env → Type 0) (m : Act env A) : Type 0 where
  pub keep : (w : World env) → I w → I (m w).1

module _ {env : Env} {I : World env → Type 0} {A : Type 0} where
  pub pure-Keeps : (a : A) → Keeps I (pure {env = env} a)
  pure-Keeps a = record { keep = λ w h. h }

  pub raise-Keeps : (e : GoError) → Keeps I (raise {env = env} {A = A} e)
  raise-Keeps e = record { keep = λ w h. h }

  pub crash-Keeps : Keeps I (crash {env = env} {A = A})
  crash-Keeps = record { keep = λ w h. h }

  pub read-Keeps : (f : World env → A) → Keeps I (read f)
  read-Keeps f = record { keep = λ w h. h }

  pub attempt-Keeps : {m : Act env A} → Keeps I m → Keeps I (attempt m)
  attempt-Keeps k = record { keep = k.keep }

  pub in_context-Keeps :
      (context : Text) {m : Act env A} → Keeps I m → Keeps I (in_context context m)
  in_context-Keeps context k = record { keep = k.keep }

  pub if-Keeps : (b : Bool) {m n : Act env A} → Keeps I m → Keeps I n → Keeps I (if b then m else n)
  if-Keeps true k l = k
  if-Keeps false k l = l

module _ {env : Env} {I : World env → Type 0} {A B : Type 0} where
  pub continue-Keeps :
      (r : Outcome A) {f : A → Act env B} → ((a : A) → Keeps I (f a)) → Keeps I (continue r f)
  continue-Keeps (ok a) k = record { keep = (k a).keep }
  continue-Keeps (err e) k = record { keep = λ w h. h }
  continue-Keeps panic k = record { keep = λ w h. h }

  pub bind-Keeps :
      {m : Act env A} {f : A → Act env B}
      → Keeps I m
      → ((a : A) → Keeps I (f a))
      → Keeps I (m >>= f)
  bind-Keeps {m} k l = record { keep = λ w h. (continue-Keeps (m w).0 l).keep (m w).1 (k.keep w h) }

module _ {env : Env} {I : World env → Type 0} {A B : Type 0} where
  pub sum-Keeps :
      (x : GoError ⊎ A) {f : GoError → Act env B} {g : A → Act env B}
      → ((e : GoError) → Keeps I (f e))
      → ((a : A) → Keeps I (g a))
      → Keeps I (elim x [ inl e ↦ f e | inr a ↦ g a ])
  sum-Keeps (inl e) k l = k e
  sum-Keeps (inr a) k l = l a

  pub option-Keeps :
      (x : Option A) {m : Act env B} {g : A → Act env B}
      → Keeps I m
      → ((a : A) → Keeps I (g a))
      → Keeps I (elim x [ none ↦ m | some a ↦ g a ])
  option-Keeps none k l = k
  option-Keeps (some a) k l = l a
