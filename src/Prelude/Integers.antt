-- ===== src/Prelude/Integers.antt =====
-- Integers, and `strconv.Atoi`, which reads one from a text.
use Prim.Native.Nat.{ℕ, zero, suc, ◌+◌, ◌-◌, ◌*◌, ◌^◌}
use mathlib.Core.Bool.{Bool, true, false, ◌&&◌}
use mathlib.Core.Option.{Option, none, some}
use mathlib.Core.List.{[], ◌∷◌}
use oastrix.Prelude.Tests.{if◌then◌else◌, ltb, leb, ◌==◌}
use oastrix.Prelude.Lists.{all}
use oastrix.Prelude.Text.{Str}

pub data ℤ : Type 0 where
  pos negsuc : ℕ → ℤ

unfoldable pub decimal : ℕ → Str → ℕ
decimal n [] = n
decimal n (c ∷ s) = decimal (n * 10 + (c - b'0')) s

abbrev pub is_digit : ℕ → Bool
is_digit c = leb b'0' c && leb c b'9'

-- The digits after the sign, where there are any and nothing else.
unfoldable pub digits_value : Str → Option ℕ
unfolding decimal
digits_value [] = none
digits_value (c ∷ s) = if all is_digit (c ∷ s) then some (decimal 0 (c ∷ s)) else none

abbrev pub leading_sign : Str → Bool × Str
leading_sign [] = (false, [])
leading_sign (c ∷ s) =
    if c == b'-' then (true, s) else if c == b'+' then (false, s) else (false, c ∷ s)

-- `-n`
abbrev pub negated : ℕ → ℤ
negated zero = pos 0
negated (suc n) = negsuc n

-- The value and whether there was no error: a value outside 64 bits is taken to the nearest inside.
abbrev pub in_range : Bool → ℕ → ℤ × Bool
in_range true n = if leb n (2 ^ 63) then (negated n, true) else (negated (2 ^ 63), false)
in_range false n = if ltb n (2 ^ 63) then (pos n, true) else (pos (2 ^ 63 - 1), false)

-- What `strconv.Atoi` returns: 0 and an error for what is no decimal number.
unfoldable pub atoi : Str → ℤ × Bool
unfolding digits_value
atoi s =
    let (minus, digits) = leading_sign s in
    elim (digits_value digits) [ none ↦ (pos 0, false) | some n ↦ in_range minus n ]
