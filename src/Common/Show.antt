-- ===== src/Common/Show.antt =====
-- The verbs of package `fmt` that the program formats numbers and digests with.
use collectorctrl_k8s_code.Common.Base.{
  ℕ, zero, suc, ◌+◌, ◌/◌, ◌%◌, List, [], ◌∷◌, ltb, if◌then◌else◌,
}
use collectorctrl_k8s_code.Common.Strings.{Text}

-- The decimal digits of a number in front of a text; `suc n` rounds are enough for `n`.
unfoldable pub show_from : ℕ → ℕ → Text → Text
show_from zero n acc = acc
show_from (suc fuel) n acc =
    let rest = show_from fuel (n / 10) ((b'0' + n % 10) ∷ acc) in
    if ltb n 10 then (b'0' + n) ∷ acc else rest

-- %d of a number that is not negative
unfoldable pub show_nat : ℕ → Text
unfolding show_from
show_nat n = show_from (suc n) n []

unfoldable pub hex_digit : ℕ → ℕ
hex_digit d = if ltb d 10 then b'0' + d else 87 + d

-- %x of bytes
unfoldable pub show_hex : List ℕ → Text
unfolding hex_digit
show_hex [] = []
show_hex (b ∷ bs) = hex_digit (b / 16) ∷ hex_digit (b % 16) ∷ show_hex bs
