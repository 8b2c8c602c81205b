-- ===== src/Db/Integrity/Saving.antt =====
-- Referential integrity and SaveAttributes of internal/db/attributes.go.
use oastrix.Prelude.{
  ℕ, ◌≡◌, Str, Bool, true, false, not, ◌&&◌, List, [], ◌∷◌, All, ◌==◌, str_eq, if◌then◌else◌,
}
use oastrix.Failure.{Result, ok, err, foreign_key}
use oastrix.Models.{InteractionRow, AttributeRow}
use oastrix.Events.{Attributes, encodes, unencodable}
use oastrix.Db.{Db, Exec, continue, pure, statement}
use oastrix.Db.Interactions.{interaction_exists}
use oastrix.Db.Attributes.{
  upsert_row, upsert_attribute, save_loop, control, transaction, commit_or_roll_back,
  save_attributes,
}
use oastrix.Db.Integrity.{IsWellFormed}
use oastrix.Db.Integrity.Creation.{
  statement-IsWellFormed, moved-IsWellFormed, guarded_once, enforced_reference,
}

pub continue-IsWellFormed :
    {A B : Type 0} (m : Result A × Db) (k : A → Exec B)
    → IsWellFormed m.1
    → ((a : A) (db : Db) → IsWellFormed db → IsWellFormed (k a db).1)
    → IsWellFormed (continue m k).1
continue-IsWellFormed (ok a, db) k w step = step a db w
continue-IsWellFormed (err e, db) k w step = w

All-upsert_row :
    (rows : List InteractionRow) (id : ℕ) (key v : Str) (attrs : List AttributeRow)
    → interaction_exists id rows ≡ true
    → All (λ (a : AttributeRow). interaction_exists a.interaction_id rows ≡ true) attrs
    → All
        (λ (a : AttributeRow). interaction_exists a.interaction_id rows ≡ true)
        (upsert_row id key v attrs)
unfolding upsert_row
All-upsert_row rows id key v [] there h = (there, tt)
All-upsert_row rows id key v (r ∷ attrs) there h =
    pick (r.interaction_id == id && str_eq r.key key) (All-upsert_row rows id key v attrs there h.1)
  where
    pick :
        (b : Bool)
        → All
            (λ (a : AttributeRow). interaction_exists a.interaction_id rows ≡ true)
            (upsert_row id key v attrs)
        → All
            (λ (a : AttributeRow). interaction_exists a.interaction_id rows ≡ true)
            (if b
              then record { interaction_id = id; key = key; value = v } ∷ attrs
              else r ∷ upsert_row id key v attrs)
    pick true rest = (there, h.1)
    pick false rest = (h.0, rest)

upsert_attribute-IsWellFormed :
    (id : ℕ) (key v : Str) (db : Db)
    → IsWellFormed db
    → IsWellFormed (statement (upsert_attribute id key v) db).1
upsert_attribute-IsWellFormed id key v db w =
    statement-IsWellFormed (upsert_attribute id key v) db
      (λ fs.
        guarded_once (db.foreign_keys && not (interaction_exists id db.interactions)) foreign_key
          (ok tt, record db { attributes = upsert_row id key v db.attributes; faults = fs })
          (record db { faults = fs }) (moved-IsWellFormed db db.reads fs w)
          (λ good. record {
            enforced = w.enforced;
            tokens_numbered = w.tokens_numbered;
            rows_numbered = w.rows_numbered;
            rows_owned = w.rows_owned;
            http_owned = w.http_owned;
            dns_owned = w.dns_owned;
            attributes_owned =
                All-upsert_row db.interactions id key v db.attributes (enforced_reference db w good)
                  w.attributes_owned;
            configs_owned = w.configs_owned;
          }))
      w

save_loop-IsWellFormed :
    (id : ℕ) (attrs : Attributes) (db : Db)
    → IsWellFormed db
    → IsWellFormed (save_loop id attrs db).1
unfolding save_loop
save_loop-IsWellFormed id [] db w = w
save_loop-IsWellFormed id ((key, unencodable) ∷ attrs) db w = w
save_loop-IsWellFormed id ((key, encodes v) ∷ attrs) db w =
    continue-IsWellFormed (statement (upsert_attribute id key v) db) (λ u. save_loop id attrs)
      (upsert_attribute-IsWellFormed id key v db w) (λ u d h. save_loop-IsWellFormed id attrs d h)

control-IsWellFormed : (db : Db) → IsWellFormed db → IsWellFormed (control db).1
control-IsWellFormed db w =
    statement-IsWellFormed (pure tt) db (λ fs. moved-IsWellFormed db db.reads fs w) w

transaction-IsWellFormed :
    (id : ℕ) (attrs : Attributes) (db : Db)
    → IsWellFormed db
    → IsWellFormed (transaction id attrs db).1
unfolding transaction
transaction-IsWellFormed id attrs db w =
    let last : Exec (Unit {0}) = λ d. continue (save_loop id attrs d) (λ u. control) in
    let rest : Exec (Unit {0}) = λ d. continue (control d) (λ u. last) in
    continue-IsWellFormed (control db) (λ u. rest) (control-IsWellFormed db w)
      (λ u d h.
        continue-IsWellFormed (control d) (λ u'. last) (control-IsWellFormed d h)
          (λ u' d' h'.
            continue-IsWellFormed (save_loop id attrs d') (λ u''. control)
              (save_loop-IsWellFormed id attrs d' h')
              (λ u'' d'' h''. control-IsWellFormed d'' h'')))

commit_or_roll_back-IsWellFormed :
    (before : Db) (m : Result (Unit {0}) × Db)
    → IsWellFormed before
    → IsWellFormed m.1
    → IsWellFormed (commit_or_roll_back before m).1
commit_or_roll_back-IsWellFormed before (ok u, db) w h = h
commit_or_roll_back-IsWellFormed before (err e, db) w h =
    moved-IsWellFormed before db.reads db.faults w

pub save_attributes-IsWellFormed :
    (id : ℕ) (attrs : Attributes) (db : Db)
    → IsWellFormed db
    → IsWellFormed (save_attributes id attrs db).1
unfolding save_attributes
save_attributes-IsWellFormed id [] db w = w
save_attributes-IsWellFormed id (a ∷ attrs) db w =
    commit_or_roll_back-IsWellFormed db (transaction id (a ∷ attrs) db) w
      (transaction-IsWellFormed id (a ∷ attrs) db w)
