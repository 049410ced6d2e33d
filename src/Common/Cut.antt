-- ===== src/Common/Cut.antt =====
-- Laws of cutting a text at a separator, of prefixes and of the comparison without case.
use native.Mathlib.Numerals.{add-one}
use collectorctrl_k8s_code.Common.Base.{
  ℕ, suc, zero, ◌+◌, ◌≡◌, ◌≢◌, refl, inl, inr, Option, none, some, List, [], ◌∷◌, ◌++◌, arith,
  length, length-append, All, Option-cases,
}
use collectorctrl_k8s_code.Common.Strings.{Text, strip_prefix, cut, push_first, split_n, split}

-- A text in which a code point does not occur.
abbrev pub Lacks : ℕ → Text → Type 0
Lacks c s = All (λ d. c ≢ d) s

pub strip_prefix-append : (p s : Text) → strip_prefix p (p ++ s) ≡ some s
unfolding strip_prefix
strip_prefix-append [] s = refl
strip_prefix-append (c ∷ p) s = ground (arith, strip_prefix-append p s)

pub strip_prefix_sound : (p s r : Text) → strip_prefix p s ≡ some r → s ≡ p ++ r
unfolding strip_prefix
strip_prefix_sound [] s r h = ground arith
strip_prefix_sound (c ∷ p) [] r h = cc
strip_prefix_sound (c ∷ p) (d ∷ s) r h = ground (arith, strip_prefix_sound p s r)

-- The first separator is found behind a text that lacks the separator's first code point.
pub cut-append :
    (c : ℕ) (sep a b : Text) → Lacks c a → cut (c ∷ sep) (a ++ (c ∷ sep ++ b)) ≡ some (a, b)
unfolding cut
cut-append c sep [] b h = ground (arith, strip_prefix-append sep b)
cut-append c sep (d ∷ a) b h = ground (arith, cut-append c sep a b h.1)

-- A text that lacks the separator's first code point is not cut.
pub cut-eq-none : (c : ℕ) (sep s : Text) → Lacks c s → cut (c ∷ sep) s ≡ none
unfolding cut
cut-eq-none c sep [] h = refl
cut-eq-none c sep (d ∷ s) h = ground (arith, cut-eq-none c sep s h.1)

pub push_first-some :
    (c : ℕ) (o : Option (Text × Text)) {a b : Text}
    → push_first c o ≡ some (a, b)
    → (a' : Text) × (o ≡ some (a', b)) × (a ≡ c ∷ a')
push_first-some c (some (a', b')) h = (a', ground arith, ground arith)
push_first-some c none h = cc

cut_at_once :
    (sep s r a b : Text)
    → s ≡ sep ++ r
    → ◌≡◌ {A = Option (Text × Text)} (some ([], r)) (some (a, b))
    → s ≡ a ++ (sep ++ b)
cut_at_once sep s r a b h e = ground arith

-- What a cut returns makes up the text again.
pub cut_sound : (sep s a b : Text) → cut sep s ≡ some (a, b) → s ≡ a ++ (sep ++ b)
unfolding cut
cut_sound sep [] a b h = elim (Option-cases (strip_prefix sep [])) [
  | inl e ↦ ground arith
  | inr (r, e) ↦ cut_at_once sep [] r a b (strip_prefix_sound sep [] r e) (ground arith)
]
cut_sound sep (c ∷ s) a b h = elim (Option-cases (strip_prefix sep (c ∷ s))) [
  | inl e ↦
      let (a', found, same) = push_first-some c (cut sep s) {a = a} {b = b} (ground arith) in
      ground (arith, cut_sound sep s a' b found)
  | inr (r, e) ↦ cut_at_once sep (c ∷ s) r a b (strip_prefix_sound sep (c ∷ s) r e) (ground arith)
]

-- The first part of a split, for a text whose first part lacks the separator's first code point.
pub split-head :
    (c : ℕ) (sep a b : Text)
    → Lacks c a
    → (rest : List Text) × (split (c ∷ sep) (a ++ (c ∷ sep ++ b)) ≡ a ∷ rest)
unfolding split
split-head c sep a b h =
    let long : length (a ++ (c ∷ sep ++ b)) + 1 ≡ suc (suc (length a + length (sep ++ b))) =
      omega (arith, length-append a (c ∷ sep ++ b)) in
    let fuel = length a + length (sep ++ b) in
    (split_n (suc fuel) (c ∷ sep) b, rw (long, split_n, cut-append c sep a b h) refl)

pub split_n_whole : (n : ℕ) (sep s : Text) → cut sep s ≡ none → split_n (suc n) sep s ≡ s ∷ []
unfolding split_n
split_n_whole zero sep s h = refl
split_n_whole (suc n) sep s h = ground arith

pub split_whole : (c : ℕ) (sep s : Text) → Lacks c s → split (c ∷ sep) s ≡ s ∷ []
unfolding split
split_whole c sep s h = rw add-one (split_n_whole (length s) (c ∷ sep) s (cut-eq-none c sep s h))

-- strings.SplitN with at most two parts is one cut.
pub split_n-two : (sep s a b : Text) → cut sep s ≡ some (a, b) → split_n 2 sep s ≡ a ∷ b ∷ []
unfolding split_n
split_n-two sep s a b h = ground arith
