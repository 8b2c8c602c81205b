-- ===== src/Prelude/Text.antt =====
-- Go's strings as lists of bytes, and the functions of package strings that the program calls.
use Prim.Native.Nat.{ℕ, suc, ◌+◌}
use Prim.Native.Char.{code}
use Prim.Native.String.{String}
use mathlib.Core.Path.{◌≡◌, refl}
use mathlib.Core.Logic.{◌↔◌, ◌≢◌, inl, inr}
use mathlib.Core.Bool.{Bool, true, false, ◌&&◌}
use mathlib.Core.Option.{Option, none, some}
use mathlib.Core.List.{List, [], ◌∷◌, ◌++◌, map}
use native.Mathlib.Omega.{arith}
use oastrix.Prelude.Tests.{leb, ◌==◌, if◌then◌else◌, Bool-cases}
use oastrix.Prelude.Lists.{length, All}

abbrev pub Str : Type 0
Str = List ℕ

-- The bytes of an ASCII literal.
abbrev pub bytes : String → Str
bytes String.[] = []
bytes (String.◌∷◌ c s) = code c ∷ bytes s

unfoldable pub str_eq : Str → Str → Bool
str_eq [] [] = true
str_eq (a ∷ s) (b ∷ t) = (a == b) && str_eq s t
str_eq _ _ = false

pub str_eq_iff : (s t : Str) → (str_eq s t ≡ true) ↔ (s ≡ t)
unfolding str_eq
str_eq_iff [] [] = (λ h. refl, λ h. refl)
str_eq_iff [] (b ∷ t) = ground arith
str_eq_iff (a ∷ s) [] = ground arith
str_eq_iff (a ∷ s) (b ∷ t) = ground (arith, str_eq_iff s t)

pub str_eq_refl : (s : Str) → str_eq s s ≡ true
str_eq_refl s = (str_eq_iff s s).1 refl

-- strings.Index and strings.LastIndex for a separator of one byte; `none` is -1.
unfoldable pub index_byte : Str → ℕ → Option ℕ
index_byte [] c = none
index_byte (x ∷ s) c =
    if x == c then some 0 else elim (index_byte s c) [ none ↦ none | some i ↦ some (suc i) ]

unfoldable pub last_index_byte : Str → ℕ → Option ℕ
last_index_byte [] c = none
last_index_byte (x ∷ s) c = elim (last_index_byte s c) [
  | some i ↦ some (suc i)
  | none ↦ if x == c then some 0 else none
]

abbrev pub Lacks : ℕ → Str → Type 0
Lacks c s = All (λ x. x ≢ c) s

pub index_byte_of_Lacks : (s : Str) (c : ℕ) → Lacks c s → index_byte s c ≡ none
unfolding index_byte
index_byte_of_Lacks [] c h = refl
index_byte_of_Lacks (x ∷ s) c h = ground (arith, index_byte_of_Lacks s c h.1)

pub last_index_byte_of_Lacks : (s : Str) (c : ℕ) → Lacks c s → last_index_byte s c ≡ none
unfolding last_index_byte
last_index_byte_of_Lacks [] c h = refl
last_index_byte_of_Lacks (x ∷ s) c h = ground (arith, last_index_byte_of_Lacks s c h.1)

pub Lacks-of_index_byte : (s : Str) (c : ℕ) → index_byte s c ≡ none → Lacks c s
unfolding index_byte
Lacks-of_index_byte [] c h = tt
Lacks-of_index_byte (x ∷ s) c h = (ground arith, Lacks-of_index_byte s c (ground arith))

pub index_byte-append :
    (s t : Str) (c : ℕ) → Lacks c s → index_byte (s ++ c ∷ t) c ≡ some (length s)
unfolding index_byte
index_byte-append [] t c h = ground arith
index_byte-append (x ∷ s) t c h = ground (arith, index_byte-append s t c h.1)

pub last_index_byte-append :
    (s t : Str) (c : ℕ) → Lacks c t → last_index_byte (s ++ c ∷ t) c ≡ some (length s)
unfolding last_index_byte
last_index_byte-append [] t c h = ground (arith, last_index_byte_of_Lacks t c h)
last_index_byte-append (x ∷ s) t c h = ground (arith, last_index_byte-append s t c h)

-- strings.Split(s, sep) for a separator of one byte: the first part, and the later ones.
unfoldable pub split : Str → ℕ → Str × List Str
split [] c = ([], [])
split (x ∷ s) c =
    let (part, parts) = split s c in if x == c then ([], part ∷ parts) else (x ∷ part, parts)

pub split_of_Lacks : (s : Str) (c : ℕ) → Lacks c s → split s c ≡ (s, [])
unfolding split
split_of_Lacks [] c h = refl
split_of_Lacks (x ∷ s) c h = ground (arith, split_of_Lacks s c h.1)

pub split-append :
    (s t : Str) (c : ℕ) → Lacks c s → split (s ++ c ∷ t) c ≡ (s, (split t c).0 ∷ (split t c).1)
unfolding split
split-append [] t c h = ground arith
split-append (x ∷ s) t c h = ground (arith, split-append s t c h.1)

pub Lacks-split : (s : Str) (c : ℕ) → Lacks c (split s c).0
unfolding split
Lacks-split [] c = tt
Lacks-split (x ∷ s) c = elim (Bool-cases (x == c)) [
  | inl e ↦ rw e tt
  | inr e ↦ rw e (ground arith, Lacks-split s c)
]

-- strings.ToLower on ASCII text, where it is bytewise.
unfoldable pub lower_byte : ℕ → ℕ
lower_byte c = if leb b'A' c && leb c b'Z' then c + 32 else c

unfoldable pub to_lower : Str → Str
to_lower s = map lower_byte s

-- strings.Trim(s, cutset), for a cutset given as a test.
unfoldable pub trim_left : (ℕ → Bool) → Str → Str
trim_left p [] = []
trim_left p (x ∷ s) = let rest = trim_left p s in if p x then rest else x ∷ s

unfoldable pub trim_right : (ℕ → Bool) → Str → Str
trim_right p [] = []
trim_right p (x ∷ s) = elim (trim_right p s) [ [] ↦ if p x then [] else x ∷ [] | y ∷ r ↦ x ∷ y ∷ r ]

unfoldable pub trim : (ℕ → Bool) → Str → Str
unfolding trim_left trim_right
trim p s = trim_right p (trim_left p s)

abbrev pub NoneOf : (ℕ → Bool) → Str → Type 0
NoneOf p s = All (λ x. p x ≡ false) s

trim_left_of_NoneOf : (p : ℕ → Bool) (s : Str) → NoneOf p s → trim_left p s ≡ s
unfolding trim_left
trim_left_of_NoneOf p [] h = refl
trim_left_of_NoneOf p (x ∷ s) h = rw (h.0)

trim_right_of_NoneOf : (p : ℕ → Bool) (s : Str) → NoneOf p s → trim_right p s ≡ s
unfolding trim_right
trim_right_of_NoneOf p [] h = refl
trim_right_of_NoneOf p (x ∷ []) h = rw (h.0)
trim_right_of_NoneOf p (x ∷ y ∷ s) h = rw (trim_right_of_NoneOf p (y ∷ s) h.1, trim_right)

pub trim_of_NoneOf : (p : ℕ → Bool) (s : Str) → NoneOf p s → trim p s ≡ s
unfolding trim
trim_of_NoneOf p s h = rw (trim_left_of_NoneOf p s h) (trim_right_of_NoneOf p s h)
