-- ===== src/Auth/Base62.antt =====
-- The number that an encoded secret stands for: encodeBase62 of internal/auth/auth.go.
use oastrix.Prelude.{
  ℕ, zero, suc, ◌+◌, ◌*◌, ◌/◌, ◌%◌, ◌≤◌, ◌<◌, ◌≡◌, refl, ◌∙◌, ap, Str, true, Option, none, some, [],
  ◌∷◌, arith, ltb, ◌==◌, inl, inr, Bool-cases, index_byte, passes, passes-at, ==_iff,
}
use oastrix.Auth.{
  base62_alphabet, base62_digit, base62_loop, zeros_loop, or_zero, set_bytes, encode_base62,
}

abbrev position : Option ℕ → ℕ
position none = 0
position (some i) = i

-- The value of a digit: its place in the alphabet.
pub digit_value : ℕ → ℕ
unfolding index_byte
digit_value c = position (index_byte base62_alphabet c)

-- The number that a text of digits stands for.
pub value_from : ℕ → Str → ℕ
unfolding digit_value
value_from n [] = n
value_from n (c ∷ s) = value_from (n * 62 + digit_value c) s

digit_table : passes (λ d. digit_value (base62_digit d) == d) 62 ≡ true
unfolding passes digit_value
digit_table = refl

pub digit_value-base62_digit : (d : ℕ) → d < 62 → digit_value (base62_digit d) ≡ d
digit_value-base62_digit d h = (==_iff _ d).0 (passes-at _ 62 d h digit_table)

-- With as much fuel as the number, the loop puts the digits of the number before the result.
value-base62_loop :
    (fuel n : ℕ) (result : Str)
    → n ≤ fuel
    → value_from 0 (base62_loop fuel n result) ≡ value_from n result
unfolding base62_loop
value-base62_loop zero n result h = ap (λ k. value_from k result) (omega arith)
value-base62_loop (suc fuel) n result h = elim (Bool-cases (ltb 0 n)) [
  | inl more ↦ rw more (
      value-base62_loop fuel (n / 62) (base62_digit (n % 62) ∷ result) (ground arith)
      ∙ (unfold value_from in
          rw (digit_value-base62_digit (n % 62) (omega arith))
            (ap (λ k. value_from k result) (omega arith))))
  | inr done ↦ rw done (ap (λ k. value_from k result) (ground arith))
]

value-zero : (s : Str) → value_from 0 (b'0' ∷ s) ≡ value_from 0 s
unfolding value_from
value-zero s = refl

value-zeros_loop :
    (data' result : Str) → value_from 0 (zeros_loop data' result) ≡ value_from 0 result
unfolding zeros_loop
value-zeros_loop [] result = refl
value-zeros_loop (b ∷ data') result = elim (Bool-cases (b == 0)) [
  | inl z ↦ rw z (value-zeros_loop data' (b'0' ∷ result) ∙ value-zero result)
  | inr nz ↦ rw nz refl
]

value-or_zero : (s : Str) → value_from 0 (or_zero s) ≡ value_from 0 s
unfolding value_from
value-or_zero [] = refl
value-or_zero (c ∷ s) = refl

value-base62_run :
    (data' : Str) (n : ℕ) → value_from 0 (or_zero (zeros_loop data' (base62_loop n n []))) ≡ n
value-base62_run data' n =
    value-or_zero (zeros_loop data' (base62_loop n n []))
    ∙ value-zeros_loop data' (base62_loop n n [])
    ∙ value-base62_loop n n [] (omega arith)
    ∙ (unfold value_from in refl)

-- The fuel that the encoding of a secret is given is enough: the number that its base-62 digits
-- stand for is the number that the bytes of the secret stand for, for every secret.
pub value-encode_base62 : (data' : Str) → value_from 0 (encode_base62 data') ≡ set_bytes 0 data'
unfolding encode_base62
value-encode_base62 data' = value-base62_run data' (set_bytes 0 data')
