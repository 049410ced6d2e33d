-- ===== src/Common/Errors.antt =====
-- Go errors, the outcome of a call, and Go maps with text keys as association lists.
use collectorctrl_k8s_code.Common.Base.{
  Bool, false, Option, none, some, List, [], ◌∷◌, ◌++◌, if◌then◌else◌,
}
use collectorctrl_k8s_code.Common.Strings.{Text, text, ◌==◌}

-- An `error`: what `Error()` returns, and whether the API machinery's IsNotFound holds of it.
pub record GoError : Type 0 where
  pub message : Text
  pub is_not_found : Bool

-- fmt.Errorf with no %w
unfoldable pub errorf : Text → GoError
errorf m = record { message = m; is_not_found = false }

-- fmt.Errorf("<context>: %w", err)
unfoldable pub wrapf : Text → GoError → GoError
wrapf context e = record e { message = context ++ (text ": " ++ e.message) }

-- A value, an error, or a run-time panic.
pub data Outcome {ℓ} (A : Type ℓ) : Type ℓ where
  ok : A → Outcome A
  err : GoError → Outcome A
  panic : Outcome A

-- A map is its entries in the order in which a `range` visits them.
abbrev pub Assoc {ℓ} : Type ℓ → Type ℓ
Assoc V = List (Text × V)

module _ {ℓ} {V : Type ℓ} where
  unfoldable pub lookup : Text → Assoc V → Option V
  unfolding ◌==◌
  lookup k [] = none
  lookup k ((j, v) ∷ m) = if j == k then some v else lookup k m

  -- `m[k]`, with the zero value where the key is missing
  unfoldable pub lookup_or : V → Text → Assoc V → V
  unfolding lookup
  lookup_or zero_value k m = elim (lookup k m) [ none ↦ zero_value | some v ↦ v ]

  -- `m[k] = v`
  unfoldable pub insert : Text → V → Assoc V → Assoc V
  unfolding ◌==◌
  insert k v [] = (k, v) ∷ []
  insert k v ((j, w) ∷ m) = let rest = insert k v m in if j == k then (j, v) ∷ m else (j, w) ∷ rest

  -- `delete(m, k)`
  unfoldable pub remove : Text → Assoc V → Assoc V
  unfolding ◌==◌
  remove k [] = []
  remove k ((j, v) ∷ m) = let rest = remove k m in if j == k then rest else (j, v) ∷ rest
