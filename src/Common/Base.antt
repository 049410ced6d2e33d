-- ===== src/Common/Base.antt =====
-- The libraries' names, Boolean tests on native numbers, and small helpers on lists and options.
use Prim.Native.Nat.{compare, Ordering}
pub use Prim.Native.Nat.{ℕ, zero, suc, ◌+◌, ◌-◌, ◌*◌, ◌/◌, ◌%◌, ◌≤◌, ◌<◌}
pub use Prim.Native.String.{String}
pub use mathlib.Core.Path.{◌≡◌, refl, sym, ap, ◌∙◌, subst}
pub use mathlib.Core.Logic.{◌≢◌, ◌↔◌, ◌⊎◌, inl, inr}
pub use mathlib.Core.Bool.{Bool, true, false, not, ◌&&◌, ◌||◌}
pub use mathlib.Core.Option.{Option, none, some}
pub use mathlib.Core.List.{List, [], ◌∷◌, ◌++◌, map, reverse}
pub use native.Mathlib.Omega.{arith}

abbrev pub ltb : ℕ → ℕ → Bool
ltb a b = elim (compare a b) [ Ordering.lt ↦ true | _ ↦ false ]

abbrev pub leb : ℕ → ℕ → Bool
leb a b = elim (compare a b) [ Ordering.gt ↦ false | _ ↦ true ]

-- Equality of two numbers (`==` is that of texts).
abbrev pub eqb : ℕ → ℕ → Bool
eqb a b = elim (compare a b) [ Ordering.eq ↦ true | _ ↦ false ]

infix 1 if◌then◌else◌
abbrev pub if◌then◌else◌ {ℓ} : {A : Type ℓ} → Bool → A → A → A
if true then x else y = x
if false then x else y = y

pub eqb_iff : (a b : ℕ) → (eqb a b ≡ true) ↔ (a ≡ b)
eqb_iff a b = ground arith

pub Bool-cases : (b : Bool) → (b ≡ true) ⊎ (b ≡ false)
Bool-cases true = inl refl
Bool-cases false = inr refl

pub Option-cases {ℓ} : {A : Type ℓ} (o : Option A) → (o ≡ none) ⊎ ((a : A) × (o ≡ some a))
Option-cases none = inl refl
Option-cases (some a) = inr (a, refl)

module _ {ℓ} {A : Type ℓ} where
  abbrev pub length : List A → ℕ
  length [] = 0
  length (x ∷ xs) = suc (length xs)

  abbrev pub get_elem? : List A → ℕ → Option A
  get_elem? [] i = none
  get_elem? (x ∷ xs) zero = some x
  get_elem? (x ∷ xs) (suc i) = get_elem? xs i

  -- A write out of bounds changes nothing.
  abbrev pub set : List A → ℕ → A → List A
  set [] i v = []
  set (x ∷ xs) zero v = v ∷ xs
  set (x ∷ xs) (suc i) v = x ∷ set xs i v

  -- The elements that pass a Boolean test.
  abbrev pub select : (A → Bool) → List A → List A
  select p [] = []
  select p (x ∷ xs) = let rest = select p xs in if p x then x ∷ rest else rest

  -- The lists that a function gives for the elements, joined.
  abbrev pub gather {κ} : {B : Type κ} → (A → List B) → List A → List B
  gather f [] = []
  gather f (x ∷ xs) = f x ++ gather f xs

  abbrev pub count_if : (A → Bool) → List A → ℕ
  count_if p [] = 0
  count_if p (x ∷ xs) = if p x then suc (count_if p xs) else count_if p xs

  abbrev pub All {κ} : (A → Type κ) → List A → Type κ
  All P [] = Unit
  All P (x ∷ xs) = P x × All P xs

  pub All-map {κ μ} :
      {P : A → Type κ} {Q : A → Type μ}
      → ((x : A) → P x → Q x)
      → (xs : List A) → All P xs
      → All Q xs
  All-map f [] h = tt
  All-map f (x ∷ xs) h = (f x h.0, All-map f xs h.1)

  pub length-append : (xs ys : List A) → length (xs ++ ys) ≡ length xs + length ys
  length-append [] ys = omega arith
  length-append (x ∷ xs) ys = omega (arith, length-append xs ys)

  pub count_if-le-length : (p : A → Bool) (xs : List A) → count_if p xs ≤ length xs
  count_if-le-length p [] = omega arith
  count_if-le-length p (x ∷ xs) = ground (arith, count_if-le-length p xs)

pub gather-nil {ℓ κ} : {A : Type ℓ} {B : Type κ} (l : List A) → gather {B = B} (λ _. []) l ≡ []
gather-nil [] = refl
gather-nil (x ∷ l) = gather-nil l

module _ {ℓ} {A : Type ℓ} where
  pub All_of {κ} : {P : A → Type κ} → ((x : A) → P x) → (xs : List A) → All P xs
  All_of f [] = tt
  All_of f (x ∷ xs) = (f x, All_of f xs)

  pub count_if-eq-length_iff :
      (p : A → Bool) (xs : List A) → (count_if p xs ≡ length xs) ↔ All (λ x. p x ≡ true) xs
  count_if-eq-length_iff p [] = ((λ h. tt), (λ h. refl))
  count_if-eq-length_iff p (x ∷ xs) =
      let whole = count_if-eq-length_iff p xs in
      elim (Bool-cases (p x)) [
        | inl b ↦ ((λ h. (b, whole.0 (ground arith))), (λ h. ground (arith, whole.1 h.1)))
        | inr b ↦
            ((λ h. absurd (ground (arith, count_if-le-length p xs))), (λ h. absurd (ground arith)))
      ]

module _ {ℓ} {A : Type ℓ} where
  pub count_if-eq-zero_iff :
      (p : A → Bool) (xs : List A) → (count_if p xs ≡ 0) ↔ All (λ x. p x ≡ false) xs
  count_if-eq-zero_iff p [] = ((λ h. tt), (λ h. refl))
  count_if-eq-zero_iff p (x ∷ xs) =
      let none_left = count_if-eq-zero_iff p xs in
      elim (Bool-cases (p x)) [
        | inl b ↦ ((λ h. absurd (ground arith)), (λ h. absurd (ground arith)))
        | inr b ↦ ((λ h. (b, none_left.0 (ground arith))), (λ h. ground (arith, none_left.1 h.1)))
      ]
