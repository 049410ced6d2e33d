-- ===== src/Common/Gather.antt =====
-- Joined lists: when they are empty, and how they follow a permutation of what they are joined from.
use mathlib.Core.Logic.{∥∥₁_elim}
use mathlib.Core.Option.{some-injective}
use mathlib.Core.List.{Perm, Permᴰ, Perm-prop, append_assoc, perm_append_comm}
use mathlib.Core.List.Perm
use collectorctrl_k8s_code.Common.Base.{
  ◌≡◌, refl, ◌↔◌, List, [], ◌∷◌, ◌++◌, Option, none, some, gather, All, subst,
}

module _ {ℓ} {A : Type ℓ} where
  pub append-eq-nil_iff : (xs ys : List A) → (xs ++ ys ≡ []) ↔ ((xs ≡ []) × (ys ≡ []))
  append-eq-nil_iff [] ys = ((λ e. (refl, e)), (λ h. h.1))
  append-eq-nil_iff (x ∷ xs) ys = ((λ e. cc), (λ h. cc))

module _ {ℓ κ} {A : Type ℓ} {B : Type κ} (f : A → List B) where
  pub gather-eq-nil_iff : (xs : List A) → (gather f xs ≡ []) ↔ All (λ x. f x ≡ []) xs
  gather-eq-nil_iff [] = ((λ e. tt), (λ h. refl))
  gather-eq-nil_iff (x ∷ xs) =
      let split = append-eq-nil_iff (f x) (gather f xs) in
      let rest = gather-eq-nil_iff xs in
      ((λ e. ((split.0 e).0, rest.0 (split.0 e).1)), (λ h. split.1 (h.0, rest.1 h.1)))

  gather-permᴰ : {xs ys : List A} → Permᴰ xs ys → Perm (gather f xs) (gather f ys)
  gather-permᴰ Permᴰ.nil = Perm.refl []
  gather-permᴰ (Permᴰ.cons {a} {b} {l₁} {l₂} e p) =
      subst (λ c. Perm (f a ++ gather f l₁) (f c ++ gather f l₂)) e
        (Perm.append_left (f a) (gather-permᴰ p))
  gather-permᴰ (Permᴰ.swap {a} {b} {a'} {b'} {l} e d) =
      subst (λ c. Perm (f a ++ (f b ++ gather f l)) (f a' ++ (f c ++ gather f l))) e
        (subst (λ c. Perm (f a ++ (f b ++ gather f l)) (f c ++ (f a ++ gather f l))) d
          (subst (λ l'. Perm l' (f b ++ (f a ++ gather f l)))
            (append_assoc (f a) (f b) (gather f l))
            (subst (λ l'. Perm ((f a ++ f b) ++ gather f l) l')
              (append_assoc (f b) (f a) (gather f l))
              (Perm.append_right (gather f l) (perm_append_comm (f a) (f b))))))
  gather-permᴰ (Permᴰ.trans p q) = Perm.trans (gather-permᴰ p) (gather-permᴰ q)

  pub gather-perm : {xs ys : List A} → Perm xs ys → Perm (gather f xs) (gather f ys)
  gather-perm p = ∥∥₁_elim p Perm-prop gather-permᴰ

pub gather-perm_pointwise {ℓ κ} :
    {A : Type ℓ} {B : Type κ} (f g : A → List B)
    → ((a : A) → Perm (f a) (g a))
    → (l : List A) → Perm (gather f l) (gather g l)
gather-perm_pointwise f g h [] = Perm.refl []
gather-perm_pointwise f g h (a ∷ l) = Perm.append (h a) (gather-perm_pointwise f g h l)

pub gather-perm_all {ℓ κ} :
    {A : Type ℓ} {B : Type κ} (f g : A → List B) (l : List A)
    → All (λ a. Perm (f a) (g a)) l
    → Perm (gather f l) (gather g l)
gather-perm_all f g [] h = Perm.refl []
gather-perm_all f g (a ∷ l) h = Perm.append h.0 (gather-perm_all f g l h.1)

-- The lists joined over what an option holds.
abbrev pub gather_in {ℓ κ} : {A : Type ℓ} {B : Type κ} → (A → List B) → Option (List A) → List B
gather_in f none = []
gather_in f (some xs) = gather f xs

pub gather_in-eq-nil_iff {ℓ κ} :
    {A : Type ℓ} {B : Type κ} (f : A → List B) (o : Option (List A))
    → (gather_in f o ≡ []) ↔ ((xs : List A) → o ≡ some xs → All (λ x. f x ≡ []) xs)
gather_in-eq-nil_iff f none = ((λ h xs q. cc), (λ h. refl))
gather_in-eq-nil_iff f (some xs) = (
  (λ h ys q. subst (All (λ x. f x ≡ [])) (some-injective xs ys q) ((gather-eq-nil_iff f xs).0 h)),
  (λ h. (gather-eq-nil_iff f xs).1 (h xs refl)),
)

module _ {ℓ κ} {A : Type ℓ} (P : A → Type κ) where
  pub All-append : (xs ys : List A) → All P xs → All P ys → All P (xs ++ ys)
  All-append [] ys h k = k
  All-append (x ∷ xs) ys h k = (h.0, All-append xs ys h.1 k)

  pub All-gather {μ} :
      {C : Type μ} (f : C → List A) → ((c : C) → All P (f c)) → (l : List C) → All P (gather f l)
  All-gather f h [] = tt
  All-gather f h (c ∷ l) = All-append (f c) (gather f l) (h c) (All-gather f h l)
