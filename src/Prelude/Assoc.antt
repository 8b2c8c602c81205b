-- ===== src/Prelude/Assoc.antt =====
-- Go's maps with string keys as association lists, and sets of strings as lists.
use mathlib.Core.Path.{◌≡◌, refl}
use mathlib.Core.Bool.{Bool, true, false, ◌||◌}
use mathlib.Core.Option.{Option, none, some}
use mathlib.Core.List.{List, [], ◌∷◌}
use native.Mathlib.Omega.{arith}
use oastrix.Prelude.Tests.{if◌then◌else◌}
use oastrix.Prelude.Text.{Str, str_eq, str_eq_iff}

module _ {ℓ} {V : Type ℓ} where
  unfoldable pub lookup : Str → List (Str × V) → Option V
  lookup k [] = none
  lookup k ((j, v) ∷ m) = if str_eq j k then some v else lookup k m

  unfoldable pub put : Str → V → List (Str × V) → List (Str × V)
  put k v [] = (k, v) ∷ []
  put k v ((j, w) ∷ m) = if str_eq j k then (j, v) ∷ m else (j, w) ∷ put k v m

  unfoldable pub without : Str → List (Str × V) → List (Str × V)
  without k [] = []
  without k ((j, v) ∷ m) = let rest = without k m in if str_eq j k then rest else (j, v) ∷ rest

  pub lookup-put :
      (k j : Str) (v : V) (m : List (Str × V))
      → lookup j (put k v m) ≡ (if str_eq k j then some v else lookup j m)
  unfolding lookup put
  lookup-put k j v [] = refl
  lookup-put k j v ((i, w) ∷ m) =
      ground (arith, str_eq_iff k j, str_eq_iff i k, str_eq_iff i j, lookup-put k j v m)

  pub lookup-without :
      (k j : Str) (m : List (Str × V))
      → lookup j (without k m) ≡ (if str_eq k j then none else lookup j m)
  unfolding lookup without
  lookup-without k j [] = ground arith
  lookup-without k j ((i, w) ∷ m) =
      ground (arith, str_eq_iff k j, str_eq_iff i k, str_eq_iff i j, lookup-without k j m)

unfoldable pub contains : List Str → Str → Bool
contains [] v = false
contains (w ∷ ws) v = str_eq w v || contains ws v

unfoldable pub add_value : Str → List Str → List Str
unfolding contains
add_value v ws = if contains ws v then ws else v ∷ ws

unfoldable pub delete_value : Str → List Str → List Str
delete_value v [] = []
delete_value v (w ∷ ws) = let rest = delete_value v ws in if str_eq w v then rest else w ∷ rest

pub contains-add_value :
    (v w : Str) (ws : List Str)
    → contains (add_value v ws) w ≡ (if str_eq v w then true else contains ws w)
unfolding contains add_value
contains-add_value v w [] = ground arith
contains-add_value v w (u ∷ ws) =
    ground (arith, str_eq_iff v w, str_eq_iff u v, str_eq_iff u w, contains-add_value v w ws)

pub contains-delete_value :
    (v w : Str) (ws : List Str)
    → contains (delete_value v ws) w ≡ (if str_eq v w then false else contains ws w)
unfolding contains delete_value
contains-delete_value v w [] = ground arith
contains-delete_value v w (u ∷ ws) =
    ground (arith, str_eq_iff v w, str_eq_iff u v, str_eq_iff u w, contains-delete_value v w ws)
