-- ===== src/Common/Strings.antt =====
-- Go strings as lists of Unicode code points, with the functions of package `strings` that the
-- program calls. A Go string is UTF-8; no code here indexes or slices one by byte.
use mathlib.Core.Option
use Prim.Native.Char.{code}
use collectorctrl_k8s_code.Common.Base.{
  ℕ, suc, zero, ◌+◌, String, ◌≡◌, refl, ◌↔◌, Bool, true, false, ◌&&◌, ◌||◌, Option, none, some,
  List, [], ◌∷◌, reverse, arith, leb, eqb, if◌then◌else◌, length,
}

abbrev pub Text : Type 0
Text = List ℕ

-- The text of a string literal.
unfoldable pub text : String → Text
text String.[] = []
text (String.◌∷◌ c s) = code c ∷ text s

infix 50 ◌==◌
unfoldable pub ◌==◌ : Text → Text → Bool
[] == [] = true
[] == (d ∷ t) = false
(c ∷ s) == [] = false
(c ∷ s) == (d ∷ t) = eqb c d && s == t

pub ==_iff : (s t : Text) → ((s == t) ≡ true) ↔ (s ≡ t)
unfolding ◌==◌
==_iff [] [] = ground arith
==_iff [] (d ∷ t) = ground arith
==_iff (c ∷ s) [] = ground arith
==_iff (c ∷ s) (d ∷ t) = ground (arith, ==_iff s t)

pub ==_refl : (s : Text) → (s == s) ≡ true
==_refl s = (==_iff s s).1 refl

-- What is left of a text behind a prefix.
unfoldable pub strip_prefix : Text → Text → Option Text
strip_prefix [] s = some s
strip_prefix (c ∷ p) [] = none
strip_prefix (c ∷ p) (d ∷ s) = if eqb c d then strip_prefix p s else none

-- strings.TrimPrefix
unfoldable pub trim_prefix : Text → Text → Text
unfolding strip_prefix
trim_prefix s p = Option.get_or (strip_prefix p s) s

abbrev pub push_first : ℕ → Option (Text × Text) → Option (Text × Text)
push_first c none = none
push_first c (some (a, b)) = some (c ∷ a, b)

-- The parts before and behind the first occurrence of a separator.
unfoldable pub cut : Text → Text → Option (Text × Text)
unfolding strip_prefix
cut sep [] = elim (strip_prefix sep []) [ some r ↦ some ([], r) | none ↦ none ]
cut sep (c ∷ s) = elim (strip_prefix sep (c ∷ s)) [
  | some r ↦ some ([], r)
  | none ↦ push_first c (cut sep s)
]

-- strings.SplitN, for a separator that is not empty.
unfoldable pub split_n : ℕ → Text → Text → List Text
unfolding cut
split_n zero sep s = []
split_n (suc zero) sep s = s ∷ []
split_n (suc (suc n)) sep s = elim (cut sep s) [
  | none ↦ s ∷ []
  | some (a, b) ↦ a ∷ split_n (suc n) sep b
]

-- strings.Split: each separator takes a code point, so a text has fewer separators than the bound.
unfoldable pub split : Text → Text → List Text
unfolding split_n
split sep s = split_n (length s + 1) sep s

-- unicode.IsSpace
is_space : ℕ → Bool
is_space c =
    (leb 0x09 c && leb c 0x0d)
    || eqb c 0x20
    || eqb c 0x85
    || eqb c 0xa0
    || eqb c 0x1680
    || (leb 0x2000 c && leb c 0x200a)
    || eqb c 0x2028
    || eqb c 0x2029
    || eqb c 0x202f
    || eqb c 0x205f
    || eqb c 0x3000

trim_left : Text → Text
unfolding is_space
trim_left [] = []
trim_left (c ∷ s) = let rest = trim_left s in if is_space c then rest else c ∷ s

-- strings.TrimSpace
unfoldable pub trim_space : Text → Text
unfolding trim_left
trim_space s = reverse (trim_left (reverse (trim_left s)))

-- The rune that stands for its class under simple case folding. Beside the ASCII letters these
-- are the two other runes in the class of an ASCII letter, U+017F (s) and U+212A (k). Every call
-- of strings.EqualFold here compares with an ASCII text, where no other class can matter.
unfoldable pub fold_rune : ℕ → ℕ
fold_rune c =
    if leb b'A' c && leb c b'Z'
    then c + 32
    else if eqb c 0x17f
    then b's'
    else if eqb c 0x212a
    then b'k'
    else c

-- strings.EqualFold, where one text is ASCII.
unfoldable pub equal_fold : Text → Text → Bool
unfolding fold_rune
equal_fold [] [] = true
equal_fold [] (d ∷ t) = false
equal_fold (c ∷ s) [] = false
equal_fold (c ∷ s) (d ∷ t) = eqb (fold_rune c) (fold_rune d) && equal_fold s t
