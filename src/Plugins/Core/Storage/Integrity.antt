-- ===== src/Plugins/Core/Storage/Integrity.antt =====
-- Referential integrity and the storage plugin: internal/plugins/core/storage/plugin.go.

use oastrix.Db.Interactions
use oastrix.Plugins.Core.Storage
use oastrix.Prelude.{
  ℕ, Str, not, Option, none, some, [], ◌==◌, str_eq, if_both, Option-cases, Bool-cases, inl, inr,
}
use oastrix.Failure.{Result, ok, err}
use oastrix.Models.{Token}
use oastrix.Events.{Event, InteractionDraft, HttpDraft, DnsDraft, kind_http, kind_dns}
use oastrix.Runtime.{Runtime}
use oastrix.Db.{Db, pure, continue}
use oastrix.Db.Tokens.{find_token, get_token_by_value}
use oastrix.Db.Integrity.{IsWellFormed}
use oastrix.Db.Integrity.Details.{
  create_http_interaction-IsWellFormed, create_dns_interaction-IsWellFormed,
}
use oastrix.Db.Integrity.Creation.{
  statement-IsWellFormed, moved-IsWellFormed, create_interaction-IsWellFormed,
}
use oastrix.Db.Integrity.Saving.{continue-IsWellFormed}
use oastrix.Plugins.Interfaces.{Fault}
use oastrix.Plugins.Core.Storage.{resolved, on_pre_store, http_details, dns_details, create_details}

resolved-IsWellFormed :
    (e : Event) (d : InteractionDraft) (m : Result (Option Token) × Db)
    → IsWellFormed m.1
    → IsWellFormed (resolved e d m).2
resolved-IsWellFormed e d (err x, db) w = w
resolved-IsWellFormed e d (ok none, db) w = w
resolved-IsWellFormed e d (ok (some t), db) w = w

get_token-IsWellFormed :
    (v : Str) (db : Db) → IsWellFormed db → IsWellFormed (get_token_by_value v db).1
unfolding get_token_by_value
get_token-IsWellFormed v db w =
    statement-IsWellFormed (λ d. pure (find_token v d.tokens) d) db
      (λ fs. moved-IsWellFormed db db.reads fs w) w

pub on_pre_store-IsWellFormed :
    (e : Event) (db : Db) → IsWellFormed db → IsWellFormed (on_pre_store e db).2
unfolding on_pre_store
on_pre_store-IsWellFormed e db w = elim (Option-cases e.draft) [
  | inl missing ↦ rw (missing, on_pre_store) w
  | inr (d, there) ↦
      rw (there, on_pre_store)
        (if_both {A = Option Fault × Event × Db} (λ m. IsWellFormed m.2) (not (d.token_id == 0))
          (none, e, db) _ w
          (if_both {A = Option Fault × Event × Db} (λ m. IsWellFormed m.2) (str_eq d.token_value [])
            (none, e, db) _ w
            (resolved-IsWellFormed e d (get_token_by_value d.token_value db)
              (get_token-IsWellFormed d.token_value db w))))
]

http_details-IsWellFormed :
    (rt : Runtime) (id : ℕ) (h : Option HttpDraft) (db : Db)
    → IsWellFormed db
    → IsWellFormed (http_details rt id h db).1
http_details-IsWellFormed rt id none db w = w
http_details-IsWellFormed rt id (some h) db w = create_http_interaction-IsWellFormed _ db w

dns_details-IsWellFormed :
    (id : ℕ) (d : Option DnsDraft) (db : Db)
    → IsWellFormed db
    → IsWellFormed (dns_details id d db).1
dns_details-IsWellFormed id none db w = w
dns_details-IsWellFormed id (some d) db w = create_dns_interaction-IsWellFormed _ db w

create_details-IsWellFormed :
    (rt : Runtime) (id : ℕ) (d : InteractionDraft) (db : Db)
    → IsWellFormed db
    → IsWellFormed (create_details rt id d db).1
unfolding create_details
create_details-IsWellFormed rt id d db w = elim (Bool-cases (str_eq d.kind kind_http)) [
  | inl http ↦ rw (http, create_details) (http_details-IsWellFormed rt id d.http db w)
  | inr other ↦ elim (Bool-cases (str_eq d.kind kind_dns)) [
    | inl dns ↦ rw (other, create_details, dns) (dns_details-IsWellFormed id d.dns db w)
    | inr neither ↦ rw (other, create_details, neither) w
  ]
]

pub stored_draft-IsWellFormed :
    (rt : Runtime) (d : InteractionDraft) (db : Db)
    → IsWellFormed db
    → IsWellFormed (Storage.create_interaction rt d db).1
unfolding Storage.create_interaction
stored_draft-IsWellFormed rt d db w = elim (Bool-cases (d.token_id == 0)) [
  | inl unknown ↦ rw (unknown, Storage.create_interaction) w
  | inr known ↦
      rw (known, Storage.create_interaction)
        (continue-IsWellFormed
          (Interactions.create_interaction d.token_id d.kind d.remote_ip d.remote_port d.tls
            d.summary db)
          (λ id db'. continue (create_details rt id d db') (λ u. pure id))
          (create_interaction-IsWellFormed d.token_id d.kind d.remote_ip d.remote_port d.tls
            d.summary db w)
          (λ id db' w'.
            continue-IsWellFormed (create_details rt id d db') (λ u. pure id)
              (create_details-IsWellFormed rt id d db' w') (λ u db'' w''. w'')))
]
