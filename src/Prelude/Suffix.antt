-- ===== src/Prelude/Suffix.antt =====
-- strings.HasPrefix, TrimPrefix, HasSuffix and TrimSuffix.
use Prim.Native.Nat.{◌-◌}
use mathlib.Core.Path.{◌≡◌, ap, sym, ◌∙◌}
use mathlib.Core.Bool.{Bool, true, ◌&&◌}
use mathlib.Core.List.{◌++◌}
use native.Mathlib.Omega.{arith}
use oastrix.Prelude.Tests.{leb, if◌then◌else◌}
use oastrix.Prelude.Lists.{
  length, take, drop, length-append, take-append-drop, take-length-append, drop-length-append,
}
use oastrix.Prelude.Text.{Str, str_eq, str_eq_iff, str_eq_refl}

unfoldable pub has_prefix : Str → Str → Bool
has_prefix s p = leb (length p) (length s) && str_eq (take (length p) s) p

unfoldable pub trim_prefix : Str → Str → Str
unfolding has_prefix
trim_prefix s p = if has_prefix s p then drop (length p) s else s

unfoldable pub has_suffix : Str → Str → Bool
has_suffix s t = leb (length t) (length s) && str_eq (drop (length s - length t) s) t

unfoldable pub trim_suffix : Str → Str → Str
unfolding has_suffix
trim_suffix s t = if has_suffix s t then take (length s - length t) s else s

pub has_prefix-append : (p s : Str) → has_prefix (p ++ s) p ≡ true
unfolding has_prefix
has_prefix-append p s =
    rw (take-length-append p s, str_eq_refl p) (ground (arith, length-append p s))

pub trim_prefix-append : (p s : Str) → trim_prefix (p ++ s) p ≡ s
unfolding trim_prefix
trim_prefix-append p s = rw (has_prefix-append p s) (drop-length-append p s)

length-append-sub : (s t : Str) → length (s ++ t) - length t ≡ length s
length-append-sub s t = omega (arith, length-append s t)

pub has_suffix-append : (s t : Str) → has_suffix (s ++ t) t ≡ true
unfolding has_suffix
has_suffix-append s t =
    rw (length-append-sub s t, drop-length-append s t, str_eq_refl t)
      (ground (arith, length-append s t))

pub trim_suffix-append : (s t : Str) → trim_suffix (s ++ t) t ≡ s
unfolding trim_suffix
trim_suffix-append s t = rw (has_suffix-append s t, length-append-sub s t) (take-length-append s t)

pub append-of-has_suffix : (s t : Str) → has_suffix s t ≡ true → trim_suffix s t ++ t ≡ s
unfolding trim_suffix
append-of-has_suffix s t h =
    let same : drop (length s - length t) s ≡ t =
      ground (arith, str_eq_iff (drop (length s - length t) s) t) in
    rw h (
      ap (λ r. take (length s - length t) s ++ r) (sym same)
      ∙ take-append-drop (length s - length t) s)

pub append-of-has_prefix : (s p : Str) → has_prefix s p ≡ true → p ++ trim_prefix s p ≡ s
unfolding trim_prefix
append-of-has_prefix s p h =
    let same : take (length p) s ≡ p = ground (arith, str_eq_iff (take (length p) s) p) in
    rw h (ap (λ r. r ++ drop (length p) s) (sym same) ∙ take-append-drop (length p) s)
