-- ===== src/Acme/TxtStore/Laws.antt =====
-- The store as a set of pairs of a normalised name and a value, and its tidiness.
use oastrix.Prelude.{
  ◌≡◌, ◌≢◌, Str, Bool, true, false, ◌&&◌, some, List, [], ◌∷◌, arith, if◌then◌else◌, lookup,
  contains, add_value, delete_value, contains-add_value, contains-delete_value, lookup-put,
  lookup-without, str_eq, str_eq_iff, Option-cases, inl, inr,
}
use oastrix.Acme.TxtStore.{TxtStore, normalize_name, or_empty, store_values, add, remove, get}

-- Whether a value is published under a name.
abbrev pub holds : TxtStore → Str → Str → Bool
holds s name v = contains (get name s) v

-- Whether two records are one: the same value under names that normalise alike.
abbrev pub same_record : Str → Str → Str → Str → Bool
same_record n v m w = str_eq (normalize_name n) (normalize_name m) && str_eq v w

-- After `Add` of a record the store publishes its value under every name that normalises alike, and
-- what it published before, and nothing else.
pub holds-add :
    (s : TxtStore) (n v m w : Str)
    → holds (add n v s) m w ≡ (if same_record n v m w then true else holds s m w)
unfolding add get
holds-add s n v m w =
    let N = normalize_name n in
    let M = normalize_name m in
    let old = or_empty (lookup N s.records) in
    rw (lookup-put N M (add_value v old) s.records)
      (ground (arith, str_eq_iff N M, contains-add_value v w old))

lookup-store_values :
    (k j : Str) (values : List Str) (r : List (Str × List Str))
    → or_empty (lookup j (store_values k values r))
      ≡ (if str_eq k j then values else or_empty (lookup j r))
lookup-store_values k j [] r = ground (arith, lookup-without k j r)
lookup-store_values k j (v ∷ values) r = ground (arith, lookup-put k j (v ∷ values) r)

-- After `Remove` of a record the store publishes what it published before, less that value under
-- every name that normalises alike.
pub holds-remove :
    (s : TxtStore) (n v m w : Str)
    → holds (remove n v s) m w ≡ (if same_record n v m w then false else holds s m w)
unfolding remove get contains
holds-remove s n v m w =
    let N = normalize_name n in
    let M = normalize_name m in
    elim (Option-cases (lookup N s.records)) [
      | inl missing ↦ ground (arith, str_eq_iff N M)
      | inr (old, found) ↦
          rw (found, remove)
            (rw (lookup-store_values N M (delete_value v old) s.records)
              (ground (arith, found, str_eq_iff N M, contains-delete_value v w old)))
    ]

holds-same_record :
    (s : TxtStore) (n v m w : Str) → same_record n v m w ≡ true → holds s m w ≡ holds s n v
unfolding get
holds-same_record s n v m w h =
    ground (arith, str_eq_iff (normalize_name n) (normalize_name m), str_eq_iff v w)

-- Adding a record that the store does not publish and removing it again leaves what the store
-- publishes under every name as it was.
pub remove-add :
    (s : TxtStore) (n v : Str)
    → holds s n v ≡ false
    → (m w : Str) → holds (remove n v (add n v s)) m w ≡ holds s m w
remove-add s n v fresh m w =
    rw (holds-remove (add n v s) n v m w, holds-add s n v m w)
      (ground (arith, holds-same_record s n v m w))

-- No name has an empty set of values.
abbrev pub IsTidy : TxtStore → Type 0
IsTidy s = (name : Str) → lookup name s.records ≢ some []

add_value-ne-nil : (v : Str) (ws : List Str) → add_value v ws ≢ []
unfolding add_value contains
add_value-ne-nil v [] = ground arith
add_value-ne-nil v (w ∷ ws) = ground arith

add-IsTidy : (s : TxtStore) (n v : Str) → IsTidy s → IsTidy (add n v s)
unfolding add
add-IsTidy s n v h name =
    let N = normalize_name n in
    let values = add_value v (or_empty (lookup N s.records)) in
    rw (lookup-put N name values s.records)
      (ground (arith, h name, add_value-ne-nil v (or_empty (lookup N s.records))))

store_values-IsTidy :
    (k j : Str) (values : List Str) (r : List (Str × List Str))
    → lookup j r ≢ some []
    → lookup j (store_values k values r) ≢ some []
store_values-IsTidy k j [] r h = ground (arith, lookup-without k j r)
store_values-IsTidy k j (v ∷ values) r h = ground (arith, lookup-put k j (v ∷ values) r)

remove-IsTidy : (s : TxtStore) (n v : Str) → IsTidy s → IsTidy (remove n v s)
unfolding remove
remove-IsTidy s n v h name = elim (Option-cases (lookup (normalize_name n) s.records)) [
  | inl missing ↦ rw (missing, remove) (h name)
  | inr (old, found) ↦
      rw (found, remove)
        (store_values-IsTidy (normalize_name n) name (delete_value v old) s.records (h name))
]

-- In a store in which no name has an empty set of values, `Add` and `Remove` leave none with one: a
-- name whose last value is removed is forgotten.
pub IsTidy-kept : (s : TxtStore) (n v : Str) → IsTidy s → IsTidy (add n v s) × IsTidy (remove n v s)
IsTidy-kept s n v h = (add-IsTidy s n v h, remove-IsTidy s n v h)
