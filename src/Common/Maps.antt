-- ===== src/Common/Maps.antt =====
-- How the operations of Go maps in Errors relate.
use collectorctrl_k8s_code.Common.Base.{none, some, [], ◌∷◌, ◌≡◌, refl, arith, if◌then◌else◌}
use collectorctrl_k8s_code.Common.Strings.{Text, ◌==◌, ==_iff}
use collectorctrl_k8s_code.Common.Errors.{Assoc, lookup, insert, remove}

module _ {ℓ} {V : Type ℓ} where
  pub lookup-insert :
      (j k : Text) (v : V) (m : Assoc V)
      → lookup j (insert k v m) ≡ (if k == j then some v else lookup j m)
  unfolding lookup insert
  lookup-insert j k v [] = refl
  lookup-insert j k v ((i, w) ∷ m) =
      ground (arith, lookup-insert j k v m, ==_iff i k, ==_iff i j, ==_iff k j)

  pub lookup-remove :
      (j k : Text) (m : Assoc V) → lookup j (remove k m) ≡ (if k == j then none else lookup j m)
  unfolding lookup remove
  lookup-remove j k [] = ground arith
  lookup-remove j k ((i, w) ∷ m) =
      ground (arith, lookup-remove j k m, ==_iff i k, ==_iff i j, ==_iff k j)
