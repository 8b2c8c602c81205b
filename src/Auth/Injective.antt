-- ===== src/Auth/Injective.antt =====
-- Which secrets have one encoding: encodeBase62 of internal/auth/auth.go.
use oastrix.Prelude.{ℕ, ◌+◌, ◌*◌, ◌<◌, ◌≡◌, refl, sym, ◌∙◌, ap, Str, [], ◌∷◌, arith, length, All}
use oastrix.Auth.{set_bytes, encode_base62}
use oastrix.Auth.Base62.{value_from, value-encode_base62}

abbrev pub AreBytes : Str → Type 0
AreBytes s = All (λ b. b < 256) s

-- Data of one length that stand for one number are equal.
set_bytes-injective :
    (m n : ℕ) (a b : Str)
    → AreBytes a
    → AreBytes b
    → length a ≡ length b
    → set_bytes m a ≡ set_bytes n b
    → (m ≡ n) × (a ≡ b)
unfolding set_bytes
set_bytes-injective m n [] [] ha hb len e = (e, refl)
set_bytes-injective m n [] (y ∷ b) ha hb len e = absurd (omega arith)
set_bytes-injective m n (x ∷ a) [] ha hb len e = absurd (omega arith)
set_bytes-injective m n (x ∷ a) (y ∷ b) ha hb len e =
    let (here, rest) =
      set_bytes-injective (m * 256 + x) (n * 256 + y) a b ha.1 hb.1 (omega arith) e in
    let same : x ≡ y = omega arith in (omega arith, cc)

-- Two secrets of the same number of bytes with the same encoding are the same secret.
pub encode_base62-injective :
    (a b : Str)
    → AreBytes a
    → AreBytes b
    → length a ≡ length b
    → encode_base62 a ≡ encode_base62 b
    → a ≡ b
encode_base62-injective a b ha hb len e =
    (set_bytes-injective 0 0 a b ha hb len
      (sym (value-encode_base62 a) ∙ ap (value_from 0) e ∙ value-encode_base62 b)).1
