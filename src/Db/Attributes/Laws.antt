-- ===== src/Db/Attributes/Laws.antt =====
-- What SaveAttributes of internal/db/attributes.go leaves behind.
use oastrix.Prelude.{
  ℕ, ◌≡◌, refl, Str, true, ◌&&◌, Option, none, some, List, [], ◌∷◌, arith, if◌then◌else◌, ◌==◌,
  str_eq, str_eq_iff, Option-cases, inl, inr,
}
use oastrix.Failure.{ok, err, encode}
use oastrix.Models.{AttributeRow}
use oastrix.Events.{Attributes, encodes, unencodable}
use oastrix.Db.{Db}
use oastrix.Db.Interactions.{interaction_exists}
use oastrix.Db.Attributes.{upsert_row, save_loop, transaction, save_attributes}

-- The value that is stored for a key of an interaction.
unfoldable pub value_at : ℕ → Str → List AttributeRow → Option Str
value_at id key [] = none
value_at id key (r ∷ rows) =
    if r.interaction_id == id && str_eq r.key key then some r.value else value_at id key rows

value_at-upsert_row :
    (i : ℕ) (k : Str) (id : ℕ) (key v : Str) (rows : List AttributeRow)
    → value_at i k (upsert_row id key v rows)
      ≡ (if id == i && str_eq key k then some v else value_at i k rows)
unfolding value_at upsert_row
value_at-upsert_row i k id key v [] = refl
value_at-upsert_row i k id key v (r ∷ rows) = ground (
  arith,
  str_eq_iff r.key key,
  str_eq_iff key k,
  str_eq_iff r.key k,
  value_at-upsert_row i k id key v rows,
)

-- The attributes with their encodings, if each has one.
unfoldable pub encoded : Attributes → Option (List (Str × Str))
encoded [] = some []
encoded ((key, unencodable) ∷ attrs) = none
encoded ((key, encodes v) ∷ attrs) = elim (encoded attrs) [
  | none ↦ none
  | some pairs ↦ some ((key, v) ∷ pairs)
]

-- The rows after each pair is written in turn.
unfoldable pub upsert_all : ℕ → List (Str × Str) → List AttributeRow → List AttributeRow
upsert_all id [] rows = rows
upsert_all id ((key, v) ∷ pairs) rows = upsert_all id pairs (upsert_row id key v rows)

-- The last value that is written for a key.
unfoldable pub latest : Str → List (Str × Str) → Option Str → Option Str
latest k [] old = old
latest k ((key, v) ∷ pairs) old = latest k pairs (if str_eq key k then some v else old)

value_at-upsert_all :
    (i : ℕ) (k : Str) (id : ℕ) (pairs : List (Str × Str)) (rows : List AttributeRow)
    → value_at i k (upsert_all id pairs rows)
      ≡ (if id == i then latest k pairs (value_at i k rows) else value_at i k rows)
unfolding upsert_all latest
value_at-upsert_all i k id [] rows = ground arith
value_at-upsert_all i k id ((key, v) ∷ pairs) rows =
    rw
      (
        value_at-upsert_all i k id pairs (upsert_row id key v rows),
        value_at-upsert_row i k id key v rows,
      )
      (ground arith)

save_loop-encoded :
    (id : ℕ) (attrs : Attributes) (pairs : List (Str × Str)) (db : Db)
    → db.faults ≡ []
    → interaction_exists id db.interactions ≡ true
    → encoded attrs ≡ some pairs
    → save_loop id attrs db ≡ (ok tt, record db { attributes = upsert_all id pairs db.attributes })
unfolding save_loop encoded upsert_all
save_loop-encoded id [] pairs db sound exists e = ground arith
save_loop-encoded id ((key, unencodable) ∷ attrs) pairs db sound exists e = cc
save_loop-encoded id ((key, encodes v) ∷ attrs) pairs db sound exists e =
    elim (Option-cases (encoded attrs)) [
      | inl bad ↦ cc (rw (bad, encoded) at e)
      | inr (rest, good) ↦ ground (
        arith,
        save_loop-encoded id attrs rest
            (record db { attributes = upsert_row id key v db.attributes }) sound exists good,
      )
    ]

save_loop-unencodable :
    (id : ℕ) (attrs : Attributes) (db : Db)
    → db.faults ≡ []
    → interaction_exists id db.interactions ≡ true
    → encoded attrs ≡ none
    → (rows : List AttributeRow) × (save_loop id attrs db
        ≡ (err encode, record db { attributes = rows }))
unfolding save_loop encoded
save_loop-unencodable id [] db sound exists e = cc
save_loop-unencodable id ((key, unencodable) ∷ attrs) db sound exists e = (db.attributes, refl)
save_loop-unencodable id ((key, encodes v) ∷ attrs) db sound exists e =
    elim (Option-cases (encoded attrs)) [
      | inl bad ↦
          let (rows, same) =
            save_loop-unencodable id attrs
              (record db { attributes = upsert_row id key v db.attributes }) sound exists bad in
          (rows, ground (arith, same))
      | inr (rest, good) ↦ cc (rw (good, encoded) at e)
    ]

-- Where no statement fails and the interaction exists, attributes that all have a JSON encoding are
-- saved: the rows change, and nothing else, so that a key of that interaction has the last value
-- given for it, or else the value that it had, and other interactions keep theirs.
pub save_attributes-stored :
    (id : ℕ) (attrs : Attributes) (pairs : List (Str × Str)) (db : Db)
    → db.faults ≡ []
    → interaction_exists id db.interactions ≡ true
    → encoded attrs ≡ some pairs
    → (rows : List AttributeRow) × (save_attributes id attrs db
        ≡ (ok tt, record db { attributes = rows }))
      × ((i : ℕ) (k : Str)
          → value_at i k rows ≡ (
              if id == i
              then latest k pairs (value_at i k db.attributes)
              else value_at i k db.attributes))
unfolding save_attributes transaction
save_attributes-stored id [] pairs db sound exists e = (
  upsert_all id pairs db.attributes,
  (unfold save_loop in save_loop-encoded id [] pairs db sound exists e),
  λ i k. value_at-upsert_all i k id pairs db.attributes,
)
save_attributes-stored id (a ∷ attrs) pairs db sound exists e = (
  upsert_all id pairs db.attributes,
  ground (arith, save_loop-encoded id (a ∷ attrs) pairs db sound exists e),
  λ i k. value_at-upsert_all i k id pairs db.attributes,
)

-- Where no statement fails and the interaction exists, one attribute without a JSON encoding makes
-- the save fail with nothing changed, also of what was written before it.
pub save_attributes-unencodable :
    (id : ℕ) (attrs : Attributes) (db : Db)
    → db.faults ≡ []
    → interaction_exists id db.interactions ≡ true
    → encoded attrs ≡ none
    → save_attributes id attrs db ≡ (err encode, db)
unfolding save_attributes transaction
save_attributes-unencodable id [] db sound exists e = (unfold encoded in cc)
save_attributes-unencodable id (a ∷ attrs) db sound exists e =
    let (rows, same) = save_loop-unencodable id (a ∷ attrs) db sound exists e in
    ground (arith, same)
