-- ===== src/Controller/Turning.antt =====
-- Actions that turn a property of the controller's memory into another, for
-- operator/controllers/collectormonitor_controller.go.
use collectorctrl_k8s_code.Common.{
  Bool, true, false, ◌⊎◌, inl, inr, GoError, Outcome, ok, err, panic, if◌then◌else◌,
}
use collectorctrl_k8s_code.Controller.Action.{Env, World, Act, attempt, continue, ◌>>=◌}
use collectorctrl_k8s_code.Controller.Keeping.{Keeps, continue-Keeps}

-- Whatever an action returns, the second property holds after it if the first held before it.
pub record Turns {env : Env} {A : Type 0} (J K : World env → Type 0) (m : Act env A) : Type 0 where
  pub turn : (w : World env) → J w → K (m w).1

module _ {env : Env} {J K : World env → Type 0} (weaken : (w : World env) → J w → K w) where
  pub keep-Turns : {A : Type 0} {m : Act env A} → Keeps J m → Turns J K m
  keep-Turns {m} k = record { turn = λ w h. weaken (m w).1 (k.keep w h) }

  continue-Turns :
      {A B : Type 0} (r : Outcome A) {f : A → Act env B}
      → ((a : A) → Turns J K (f a))
      → Turns J K (continue r f)
  continue-Turns (ok a) k = record { turn = (k a).turn }
  continue-Turns (err e) k = record { turn = λ w h. weaken w h }
  continue-Turns panic k = record { turn = λ w h. weaken w h }

  -- The first action keeps, what follows turns.
  pub then-Turns :
      {A B : Type 0} {m : Act env A} {f : A → Act env B}
      → Keeps J m
      → ((a : A) → Turns J K (f a))
      → Turns J K (m >>= f)
  then-Turns {m} k l = record { turn = λ w h. (continue-Turns (m w).0 l).turn (m w).1 (k.keep w h) }

module _ {env : Env} {J K : World env → Type 0} where
  -- The first action turns, what follows keeps.
  pub first-Turns :
      {A B : Type 0} {m : Act env A} {f : A → Act env B}
      → Turns J K m
      → ((a : A) → Keeps K (f a))
      → Turns J K (m >>= f)
  first-Turns {m} k l = record {
    turn = λ w h. (continue-Keeps (m w).0 l).keep (m w).1 (k.turn w h);
  }

  pub attempt-Turns : {A : Type 0} {m : Act env A} → Turns J K m → Turns J K (attempt m)
  attempt-Turns k = record { turn = k.turn }

  pub if-Turns :
      {A : Type 0} (b : Bool) {m n : Act env A}
      → Turns J K m
      → Turns J K n
      → Turns J K (if b then m else n)
  if-Turns true k l = k
  if-Turns false k l = l

  pub sum-Turns :
      {A B : Type 0} (x : GoError ⊎ A) {f : GoError → Act env B} {g : A → Act env B}
      → ((e : GoError) → Turns J K (f e))
      → ((a : A) → Turns J K (g a))
      → Turns J K (elim x [ inl e ↦ f e | inr a ↦ g a ])
  sum-Turns (inl e) k l = k e
  sum-Turns (inr a) k l = l a
