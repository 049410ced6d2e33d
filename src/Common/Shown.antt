-- ===== src/Common/Shown.antt =====
-- What the verbs in Show render.
use mathlib.Core.List.{append_assoc}
use collectorctrl_k8s_code.Common.Base.{
  ℕ, zero, suc, ◌+◌, ◌/◌, ◌%◌, ◌<◌, List, [], ◌∷◌, ◌++◌, ◌≡◌, refl, sym, ap, ◌∙◌, ltb,
  if◌then◌else◌, arith, All, map, Bool-cases, inl, inr,
}
use collectorctrl_k8s_code.Common.Strings.{Text, fold_rune}
use collectorctrl_k8s_code.Common.Show.{show_from, show_nat, show_hex, hex_digit}

-- More rounds than the number change nothing.
show_from-enough : (f g n : ℕ) (acc : Text) → n < f → n < g → show_from f n acc ≡ show_from g n acc
unfolding show_from
show_from-enough zero g n acc h k = absurd (omega arith)
show_from-enough (suc f) zero n acc h k = absurd (omega arith)
show_from-enough (suc f) (suc g) n acc h k =
    let digit = b'0' + n % 10 in
    elim (Bool-cases (ltb n 10)) [
      | inl b ↦ rw b refl
      | inr b ↦ rw b (show_from-enough f g (n / 10) (digit ∷ acc) (ground arith) (ground arith))
    ]

show_from-append : (f n : ℕ) (acc : Text) → show_from f n acc ≡ show_from f n [] ++ acc
unfolding show_from
show_from-append zero n acc = refl
show_from-append (suc f) n acc =
    let digit = b'0' + n % 10 in
    elim (Bool-cases (ltb n 10)) [
      | inl b ↦ rw b refl
      | inr b ↦ rw b (
          show_from-append f (n / 10) (digit ∷ acc)
          ∙ (sym (append_assoc (show_from f (n / 10) []) (digit ∷ []) acc)
              ∙ ap (λ (l : Text). l ++ acc) (sym (show_from-append f (n / 10) (digit ∷ [])))))
    ]

-- A number below ten is one digit, and every other one the digits of its tenth and a last digit.
pub show_nat_lem :
    (n : ℕ)
    → show_nat n ≡ (if ltb n 10 then (b'0' + n) ∷ [] else show_nat (n / 10) ++ (b'0' + n % 10) ∷ [])
unfolding show_nat show_from
show_nat_lem n = elim (Bool-cases (ltb n 10)) [
  | inl b ↦ rw b refl
  | inr b ↦ rw b (
      show_from-append n (n / 10) ((b'0' + n % 10) ∷ [])
      ∙ ap (λ (l : Text). l ++ (b'0' + n % 10) ∷ [])
          (show_from-enough n (suc (n / 10)) (n / 10) [] (ground arith) (omega arith)))
]

fold_rune-hex_digit : (d : ℕ) → d < 16 → fold_rune (hex_digit d) ≡ hex_digit d
unfolding fold_rune hex_digit
fold_rune-hex_digit d h = ground arith

hex_digit-injective : (d e : ℕ) → d < 16 → e < 16 → hex_digit d ≡ hex_digit e → d ≡ e
unfolding hex_digit
hex_digit-injective d e h k q = ground arith

abbrev pub IsByte : ℕ → Type 0
IsByte b = b < 256

byte_eq : (a b : ℕ) → a / 16 ≡ b / 16 → a % 16 ≡ b % 16 → a ≡ b
byte_eq a b h k = omega arith

digit_eq : (d e : ℕ) → d < 16 → e < 16 → fold_rune (hex_digit d) ≡ fold_rune (hex_digit e) → d ≡ e
digit_eq d e h k q =
    hex_digit-injective d e h k (sym (fold_rune-hex_digit d h) ∙ (q ∙ fold_rune-hex_digit e k))

two_heads : {c d x y : ℕ} {l m : List ℕ} → c ∷ d ∷ l ≡ x ∷ y ∷ m → (c ≡ x) × (d ≡ y) × (l ≡ m)
two_heads h = (cc, cc, cc)

same_head : {x y : ℕ} {l m : List ℕ} → x ≡ y → l ≡ m → x ∷ l ≡ y ∷ m
same_head h k = cc

-- Two digests have the same hexadecimal rendering, without regard to case, only if they are the
-- same.
pub show_hex-injective :
    (a b : List ℕ)
    → All IsByte a
    → All IsByte b
    → map fold_rune (show_hex a) ≡ map fold_rune (show_hex b)
    → a ≡ b
unfolding show_hex
show_hex-injective [] [] h k q = refl
show_hex-injective [] (y ∷ b) h k q = absurd (ground arith)
show_hex-injective (x ∷ a) [] h k q = absurd (ground arith)
show_hex-injective (x ∷ a) (y ∷ b) h k q =
    let (high, low, rest) = two_heads q in
    same_head
      (byte_eq x y (digit_eq (x / 16) (y / 16) (omega (arith, h.0)) (omega (arith, k.0)) high)
        (digit_eq (x % 16) (y % 16) (omega arith) (omega arith) low))
      (show_hex-injective a b h.1 k.1 rest)
