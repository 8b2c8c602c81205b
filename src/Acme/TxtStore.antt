-- ===== src/Acme/TxtStore.antt =====
-- The store of DNS TXT records for ACME challenges: internal/acme/txtstore.go. Each method holds
-- the store's lock from its first access of the map to its last, so a method is one step. The
-- order in which `get` lists the values is that of a Go map, which is not specified: statements
-- about it speak of membership.
pub mod Laws
use oastrix.Prelude.{
  ℕ, Str, bytes, Bool, true, false, Option, none, some, List, [], ◌∷◌, if◌then◌else◌, lookup, put,
  without, add_value, delete_value, to_lower, trim_suffix,
}

pub record TxtStore : Type 0 where
  pub records : List (Str × List Str)

unfoldable pub new_txt_store : TxtStore
new_txt_store = record { records = [] }

unfoldable pub normalize_name : Str → Str
normalize_name name = trim_suffix (to_lower name) (bytes ".")

-- A nil map and a missing key read alike; what is written to is made first.
abbrev or_empty : Option (List Str) → List Str
or_empty none = []
or_empty (some values) = values

unfoldable pub add : Str → Str → TxtStore → TxtStore
add fqdn value s =
    let fqdn' = normalize_name fqdn in
    record s { records = put fqdn' (add_value value (or_empty (lookup fqdn' s.records))) s.records }

-- `delete(s.records, fqdn)` where the set is empty.
abbrev store_values : Str → List Str → List (Str × List Str) → List (Str × List Str)
store_values fqdn [] records = without fqdn records
store_values fqdn (v ∷ values) records = put fqdn (v ∷ values) records

unfoldable pub remove : Str → Str → TxtStore → TxtStore
remove fqdn value s =
    let fqdn' = normalize_name fqdn in
    elim (lookup fqdn' s.records) [
      | none ↦ s
      | some values ↦ record s {
        records = store_values fqdn' (delete_value value values) s.records;
      }
    ]

unfoldable pub get : Str → TxtStore → List Str
get fqdn s = or_empty (lookup (normalize_name fqdn) s.records)
