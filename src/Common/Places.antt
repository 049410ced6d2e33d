-- ===== src/Common/Places.antt =====
-- Reading and writing places of a list.
use collectorctrl_k8s_code.Common.Base.{
  ℕ, zero, suc, some, List, [], ◌∷◌, ◌++◌, ◌≡◌, ◌≢◌, ◌<◌, ◌≤◌, refl, ap, arith, length, get_elem?,
  set,
}

module _ {ℓ} {A : Type ℓ} where
  abbrev pub take : ℕ → List A → List A
  take zero xs = []
  take (suc n) [] = []
  take (suc n) (x ∷ xs) = x ∷ take n xs

  pub get_elem?-last : (xs : List A) (a : A) → get_elem? (xs ++ a ∷ []) (length xs) ≡ some a
  get_elem?-last [] a = refl
  get_elem?-last (x ∷ xs) a = get_elem?-last xs a

  pub set-last : (xs : List A) (a b : A) → set (xs ++ a ∷ []) (length xs) b ≡ xs ++ b ∷ []
  set-last [] a b = refl
  set-last (x ∷ xs) a b = ap (λ l. x ∷ l) (set-last xs a b)

  pub length-snoc : (xs : List A) (a : A) → length (xs ++ a ∷ []) ≡ suc (length xs)
  length-snoc [] a = refl
  length-snoc (x ∷ xs) a = ap suc (length-snoc xs a)

  pub length-set : (xs : List A) (p : ℕ) (a : A) → length (set xs p a) ≡ length xs
  length-set [] p a = refl
  length-set (x ∷ xs) zero a = refl
  length-set (x ∷ xs) (suc p) a = ap suc (length-set xs p a)

  pub get_elem?-lt_length : (xs : List A) (p : ℕ) (a : A) → get_elem? xs p ≡ some a → p < length xs
  get_elem?-lt_length [] p a h = absurd (ground arith)
  get_elem?-lt_length (x ∷ xs) zero a h = omega arith
  get_elem?-lt_length (x ∷ xs) (suc p) a h = omega (arith, get_elem?-lt_length xs p a h)

  pub get_elem?-append :
      (xs ys : List A) (p : ℕ) (a : A) → get_elem? xs p ≡ some a → get_elem? (xs ++ ys) p ≡ some a
  get_elem?-append [] ys p a h = absurd (ground arith)
  get_elem?-append (x ∷ xs) ys zero a h = h
  get_elem?-append (x ∷ xs) ys (suc p) a h = get_elem?-append xs ys p a h

  -- A write to a place in the list is read back there, and nowhere else.
  pub get_elem?-set_same :
      (xs : List A) (p : ℕ) (a b : A) → get_elem? xs p ≡ some a → get_elem? (set xs p b) p ≡ some b
  get_elem?-set_same [] p a b h = absurd (ground arith)
  get_elem?-set_same (x ∷ xs) zero a b h = refl
  get_elem?-set_same (x ∷ xs) (suc p) a b h = get_elem?-set_same xs p a b h

  pub get_elem?-set_other :
      (xs : List A) (p q : ℕ) (b : A) → p ≢ q → get_elem? (set xs p b) q ≡ get_elem? xs q
  get_elem?-set_other [] p q b h = refl
  get_elem?-set_other (x ∷ xs) zero zero b h = absurd (h refl)
  get_elem?-set_other (x ∷ xs) zero (suc q) b h = refl
  get_elem?-set_other (x ∷ xs) (suc p) zero b h = refl
  get_elem?-set_other (x ∷ xs) (suc p) (suc q) b h =
      get_elem?-set_other xs p q b (λ e. h (ap suc e))

  pub take-set : (n : ℕ) (xs : List A) (i : ℕ) (a : A) → take n (set xs i a) ≡ set (take n xs) i a
  take-set zero xs i a = refl
  take-set (suc n) [] i a = refl
  take-set (suc n) (x ∷ xs) zero a = refl
  take-set (suc n) (x ∷ xs) (suc i) a = ap (λ l. x ∷ l) (take-set n xs i a)

  pub take-set_end : (n : ℕ) (xs : List A) (a : A) → take n (set xs n a) ≡ take n xs
  take-set_end zero xs a = refl
  take-set_end (suc n) [] a = refl
  take-set_end (suc n) (x ∷ xs) a = ap (λ l. x ∷ l) (take-set_end n xs a)

  pub take-set_next :
      (n : ℕ) (xs : List A) (a : A)
      → n < length xs
      → take (suc n) (set xs n a) ≡ take n xs ++ a ∷ []
  take-set_next n [] a h = absurd (omega arith)
  take-set_next zero (x ∷ xs) a h = refl
  take-set_next (suc n) (x ∷ xs) a h = ap (λ l. x ∷ l) (take-set_next n xs a (omega arith))

  pub take-append : (xs ys : List A) → take (length xs) (xs ++ ys) ≡ xs
  take-append [] ys = refl
  take-append (x ∷ xs) ys = ap (λ l. x ∷ l) (take-append xs ys)

  pub length-take : (n : ℕ) (xs : List A) → n ≤ length xs → length (take n xs) ≡ n
  length-take zero xs h = refl
  length-take (suc n) [] h = absurd (omega arith)
  length-take (suc n) (x ∷ xs) h = ap suc (length-take n xs (omega arith))
