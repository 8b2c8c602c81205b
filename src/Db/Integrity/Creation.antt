-- ===== src/Db/Integrity/Creation.antt =====
-- Referential integrity and the insertions of internal/db.
use oastrix.Db.Interactions
use oastrix.Prelude.{
  ℤ, ℕ, suc, ◌≡◌, refl, Str, Bool, true, false, not, ◌&&◌, Option, List, [], ◌∷◌, arith, All-map,
  is_some, if◌then◌else◌,
}
use oastrix.Models.{Token, InteractionRow}
use oastrix.Db.{Db, fail, statement, Exec, run_or_fail}
use oastrix.Db.Tokens.{create_token, insert_token, find_token, key_exists}
use oastrix.Failure.{Error, Result, ok, unique, foreign_key}
use oastrix.Db.Interactions.{
  insert_interaction, insert_http, insert_dns, find_http, find_dns, create_http_interaction,
  create_dns_interaction, token_exists, interaction_exists,
}
use oastrix.Db.Integrity.{IsWellFormed}
use oastrix.Db.Integrity.Elements.{elem-cons}

-- One more token.
with_token-IsWellFormed :
    (t : Token) (db : Db) (n : ℕ) (fs : List Bool)
    → IsWellFormed db
    → t.id ≡ suc db.last_token
    → IsWellFormed (record db {
      tokens = t ∷ db.tokens;
      last_token = suc db.last_token;
      reads = n;
      faults = fs;
    })
with_token-IsWellFormed t db n fs w e = record {
  enforced = w.enforced;
  tokens_numbered =
      ((omega arith, omega arith), All-map (λ u h. (h.0, omega arith)) db.tokens w.tokens_numbered);
  rows_numbered = w.rows_numbered;
  rows_owned =
      All-map (λ i h. elem-cons (λ (u : Token). u.id) i.token_id t db.tokens h) db.interactions
        w.rows_owned;
  http_owned = w.http_owned;
  dns_owned = w.dns_owned;
  attributes_owned = w.attributes_owned;
  configs_owned =
      All-map (λ c h. elem-cons (λ (u : Token). u.id) c.token_id t db.tokens h) db.plugin_configs
        w.configs_owned;
}

-- `faults` and `reads` do not matter.
pub moved-IsWellFormed :
    (db : Db) (n : ℕ) (fs : List Bool)
    → IsWellFormed db
    → IsWellFormed (record db { reads = n; faults = fs })
moved-IsWellFormed db n fs w = record {
  enforced = w.enforced;
  tokens_numbered = w.tokens_numbered;
  rows_numbered = w.rows_numbered;
  rows_owned = w.rows_owned;
  http_owned = w.http_owned;
  dns_owned = w.dns_owned;
  attributes_owned = w.attributes_owned;
  configs_owned = w.configs_owned;
}

-- A statement keeps integrity if what it runs does, whatever faults are to come.
pub statement-IsWellFormed :
    {A : Type 0} (run : Exec A) (db : Db)
    → ((fs : List Bool) → IsWellFormed (run (record db { faults = fs })).1)
    → IsWellFormed db
    → IsWellFormed (statement run db).1
statement-IsWellFormed run db keeps w = go db.faults (keeps db.faults)
  where
    go : (fs : List Bool) → IsWellFormed (run db).1 → IsWellFormed (run_or_fail fs run db).1
    go [] h = h
    go (true ∷ fs) h = moved-IsWellFormed db db.reads fs w
    go (false ∷ fs) h = keeps fs

-- A reference that the engine lets pass names a row.
pub enforced_reference :
    (db : Db) {b : Bool} → IsWellFormed db → (db.foreign_keys && not b) ≡ false → b ≡ true
enforced_reference db {b = true} w good = refl
enforced_reference db {b = false} w good = cc (w.enforced)

-- Two guards before a change.
pub guarded :
    {A : Type 0} (b c : Bool) (e f : Error) (m : Result A × Db) (db : Db)
    → IsWellFormed db
    → (b ≡ false → c ≡ false → IsWellFormed m.1)
    → IsWellFormed (if b then fail e db else if c then fail f db else m).1
guarded true c e f m db w k = w
guarded false true e f m db w k = w
guarded false false e f m db w k = k refl refl

pub create_token-IsWellFormed :
    (v : Str) (key : Option ℕ) (label : Option Str) (db : Db)
    → IsWellFormed db
    → IsWellFormed (create_token v key label db).1
unfolding create_token
create_token-IsWellFormed v key label db w =
    let created = db.clock db.reads in
    let db1 = record db { reads = suc db.reads } in
    let t : Token = record {
      id = suc db.last_token;
      token = v;
      api_key_id = key;
      created_at = created;
      label = label;
    } in
    statement-IsWellFormed (insert_token v key label created) db1
      (λ fs.
        guarded (is_some (find_token v db.tokens))
          (db.foreign_keys && not (key_exists key db.api_keys)) unique foreign_key
          (
            ok (suc db.last_token),
            record db1 { tokens = t ∷ db.tokens; last_token = suc db.last_token; faults = fs },
          )
          (record db1 { faults = fs }) (moved-IsWellFormed db (suc db.reads) fs w)
          (λ new good. with_token-IsWellFormed t db (suc db.reads) fs w refl))
      (moved-IsWellFormed db (suc db.reads) db.faults w)

-- One more interaction, of a token that exists.
with_row-IsWellFormed :
    (i : InteractionRow) (db : Db) (n : ℕ) (fs : List Bool)
    → IsWellFormed db
    → i.id ≡ suc db.last_interaction
    → token_exists i.token_id db.tokens ≡ true
    → IsWellFormed (record db {
      interactions = i ∷ db.interactions;
      last_interaction = suc db.last_interaction;
      reads = n;
      faults = fs;
    })
with_row-IsWellFormed i db n fs w e owned = record {
  enforced = w.enforced;
  tokens_numbered = w.tokens_numbered;
  rows_numbered = (omega arith, All-map (λ j h. omega arith) db.interactions w.rows_numbered);
  rows_owned = (owned, w.rows_owned);
  http_owned =
      All-map (λ d h. elem-cons (λ (j : InteractionRow). j.id) d.interaction_id i db.interactions h)
        db.http_interactions w.http_owned;
  dns_owned =
      All-map (λ d h. elem-cons (λ (j : InteractionRow). j.id) d.interaction_id i db.interactions h)
        db.dns_interactions w.dns_owned;
  attributes_owned =
      All-map (λ d h. elem-cons (λ (j : InteractionRow). j.id) d.interaction_id i db.interactions h)
        db.attributes w.attributes_owned;
  configs_owned = w.configs_owned;
}

pub guarded_once :
    {A : Type 0} (b : Bool) (e : Error) (m : Result A × Db) (db : Db)
    → IsWellFormed db
    → (b ≡ false → IsWellFormed m.1)
    → IsWellFormed (if b then fail e db else m).1
guarded_once true e m db w k = w
guarded_once false e m db w k = k refl

pub create_interaction-IsWellFormed :
    (token_id : ℕ) (kind ip : Str) (port : ℤ) (tls : Bool) (summary : Str) (db : Db)
    → IsWellFormed db
    → IsWellFormed (Interactions.create_interaction token_id kind ip port tls summary db).1
unfolding Interactions.create_interaction
create_interaction-IsWellFormed token_id kind ip port tls summary db w =
    let occurred = db.clock db.reads in
    let bit = if tls then 1 else 0 in
    let db1 = record db { reads = suc db.reads } in
    let i : InteractionRow = record {
      id = suc db.last_interaction;
      token_id = token_id;
      kind = kind;
      occurred_at = occurred;
      remote_ip = ip;
      remote_port = port;
      tls = bit;
      summary = summary;
    } in
    statement-IsWellFormed (insert_interaction token_id kind ip port bit summary occurred) db1
      (λ fs.
        guarded_once (db.foreign_keys && not (token_exists token_id db.tokens)) foreign_key
          (
            ok (suc db.last_interaction),
            record db1 {
              interactions = i ∷ db.interactions;
              last_interaction = suc db.last_interaction;
              faults = fs;
            },
          )
          (record db1 { faults = fs }) (moved-IsWellFormed db (suc db.reads) fs w)
          (λ good.
            with_row-IsWellFormed i db (suc db.reads) fs w refl (enforced_reference db w good)))
      (moved-IsWellFormed db (suc db.reads) db.faults w)
