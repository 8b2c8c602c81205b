-- ===== src/Db/Attributes.antt =====
-- internal/db/attributes.go. A transaction that does not reach its commit leaves the tables as
-- they were; the rollback itself is not a statement that can fail. The loop over the map is in
-- the order of the list; Go leaves it open.
pub mod Laws
use oastrix.Prelude.{
  ℕ, Str, not, ◌&&◌, Option, none, some, List, [], ◌∷◌, if◌then◌else◌, ◌==◌, str_eq,
}
use oastrix.Failure.{Result, ok, err, encode, decode, foreign_key}
use oastrix.Models.{AttributeRow}
use oastrix.Events.{Any, encodes, unencodable, Attributes}
use oastrix.Db.{Db, Exec, ◌>>=◌, ◌>>◌, pure, fail, statement}
use oastrix.Db.Interactions.{interaction_exists}

-- `json.Marshal`
abbrev pub marshal : Any → Exec Str
marshal (encodes s) = pure s
marshal unencodable = fail encode

-- `ON CONFLICT (interaction_id, key) DO UPDATE`
unfoldable pub upsert_row : ℕ → Str → Str → List AttributeRow → List AttributeRow
upsert_row id key value [] = record { interaction_id = id; key = key; value = value } ∷ []
upsert_row id key value (r ∷ rows) =
    let rest = upsert_row id key value rows in
    if r.interaction_id == id && str_eq r.key key
    then record { interaction_id = id; key = key; value = value } ∷ rows
    else r ∷ rest

abbrev pub upsert_attribute : ℕ → Str → Str → Exec (Unit {0})
upsert_attribute id key value db =
    if db.foreign_keys && not (interaction_exists id db.interactions)
    then fail foreign_key db
    else pure tt (record db { attributes = upsert_row id key value db.attributes })

-- The loop over the attributes.
unfoldable pub save_loop : ℕ → Attributes → Exec (Unit {0})
unfolding upsert_row
save_loop id [] = pure tt
save_loop id ((key, val) ∷ attrs) = do
  encoded ← marshal val
  statement (upsert_attribute id key encoded)
  save_loop id attrs

-- What an operation leaves behind of a transaction: its changes, or none of them.
abbrev pub commit_or_roll_back : Db → Result (Unit {0}) × Db → Result (Unit {0}) × Db
commit_or_roll_back before (ok u, db) = (ok u, db)
commit_or_roll_back before (err e, db) =
    (err e, record before { faults = db.faults; reads = db.reads })

-- A statement that touches no table: `Begin`, `Prepare` and `Commit`.
abbrev pub control : Exec (Unit {0})
control = statement (pure tt)

unfoldable pub transaction : ℕ → Attributes → Exec (Unit {0})
transaction id attrs = do control; control; save_loop id attrs; control

unfoldable pub save_attributes : ℕ → Attributes → Exec (Unit {0})
unfolding save_loop transaction
save_attributes id [] db = pure tt db
save_attributes id (a ∷ attrs) db = commit_or_roll_back db (transaction id (a ∷ attrs) db)

module _ {V : Type 0} (unmarshal : Str → Option V) where
  abbrev pub decoded : Str → Exec V
  decoded text = elim (unmarshal text) [ none ↦ fail decode | some v ↦ pure v ]

  -- The loop over the rows of the interaction.
  unfoldable pub read_rows : ℕ → List AttributeRow → Exec (List (Str × V))
  read_rows id [] = pure []
  read_rows id (r ∷ rows) =
      if r.interaction_id == id
      then (do v ← decoded r.value; attrs ← read_rows id rows; pure ((r.key, v) ∷ attrs))
      else read_rows id rows

  unfoldable pub get_attributes : ℕ → Exec (List (Str × V))
  unfolding read_rows
  get_attributes id = do rows ← statement (λ db. pure db.attributes db); read_rows id rows
