-- ===== src/Db/Integrity/Elements.antt =====
-- Which IDs are in a column.
use oastrix.Prelude.{ℕ, ◌≤◌, ◌≡◌, Bool, true, false, not, List, [], ◌∷◌, map, arith, keep, All}
use oastrix.Db.{elem}

module _ {A : Type 0} (id : A → ℕ) where
  pub elem-cons :
      (n : ℕ) (x : A) (xs : List A) → elem n (map id xs) ≡ true → elem n (map id (x ∷ xs)) ≡ true
  elem-cons n x xs h = ground arith

  -- What is in a column and not among the rows that pass a test is among those that fail it.
  pub elem-keep :
      (p : A → Bool) (n : ℕ) (xs : List A)
      → elem n (map id xs) ≡ true
      → elem n (map id (keep p xs)) ≡ false
      → elem n (map id (keep (λ x. not (p x)) xs)) ≡ true
  unfolding keep
  elem-keep p n [] h k = cc
  elem-keep p n (x ∷ xs) h k = ground (arith, elem-keep p n xs)

  -- IDs that are not above a bound.
  pub le-of-elem :
      (bound n : ℕ) (xs : List A)
      → All (λ x. id x ≤ bound) xs
      → elem n (map id xs) ≡ true
      → n ≤ bound
  le-of-elem bound n [] h k = cc
  le-of-elem bound n (x ∷ xs) h k = ground (arith, le-of-elem bound n xs)
