-- ===== src/Db/Integrity/Details.antt =====
-- Referential integrity and the details of interactions: CreateHTTPInteraction and
-- CreateDNSInteraction of internal/db/interactions.go.
use oastrix.Db.Integrity.Creation.{
  guarded, enforced_reference, statement-IsWellFormed, moved-IsWellFormed,
}
use oastrix.Prelude.{not, ◌&&◌, ◌∷◌, is_some}
use oastrix.Models.{HttpInteraction, DnsInteraction}
use oastrix.Db.{Db}
use oastrix.Failure.{ok, unique, foreign_key}
use oastrix.Db.Interactions.{
  insert_http, insert_dns, find_http, find_dns, create_http_interaction, create_dns_interaction,
  interaction_exists,
}
use oastrix.Db.Integrity.{IsWellFormed}

pub create_http_interaction-IsWellFormed :
    (h : HttpInteraction) (db : Db)
    → IsWellFormed db
    → IsWellFormed (create_http_interaction h db).1
unfolding create_http_interaction
create_http_interaction-IsWellFormed h db w =
    statement-IsWellFormed (insert_http h) db
      (λ fs.
        guarded (is_some (find_http h.interaction_id db.http_interactions))
          (db.foreign_keys && not (interaction_exists h.interaction_id db.interactions)) unique
          foreign_key
          (ok tt, record db { http_interactions = h ∷ db.http_interactions; faults = fs })
          (record db { faults = fs }) (moved-IsWellFormed db db.reads fs w)
          (λ new good. record {
            enforced = w.enforced;
            tokens_numbered = w.tokens_numbered;
            rows_numbered = w.rows_numbered;
            rows_owned = w.rows_owned;
            http_owned = (enforced_reference db w good, w.http_owned);
            dns_owned = w.dns_owned;
            attributes_owned = w.attributes_owned;
            configs_owned = w.configs_owned;
          }))
      w

pub create_dns_interaction-IsWellFormed :
    (d : DnsInteraction) (db : Db) → IsWellFormed db → IsWellFormed (create_dns_interaction d db).1
unfolding create_dns_interaction
create_dns_interaction-IsWellFormed d db w =
    statement-IsWellFormed (insert_dns d) db
      (λ fs.
        guarded (is_some (find_dns d.interaction_id db.dns_interactions))
          (db.foreign_keys && not (interaction_exists d.interaction_id db.interactions)) unique
          foreign_key (ok tt, record db { dns_interactions = d ∷ db.dns_interactions; faults = fs })
          (record db { faults = fs }) (moved-IsWellFormed db db.reads fs w)
          (λ new good. record {
            enforced = w.enforced;
            tokens_numbered = w.tokens_numbered;
            rows_numbered = w.rows_numbered;
            rows_owned = w.rows_owned;
            http_owned = w.http_owned;
            dns_owned = (enforced_reference db w good, w.dns_owned);
            attributes_owned = w.attributes_owned;
            configs_owned = w.configs_owned;
          }))
      w
