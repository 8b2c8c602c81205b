-- ===== src/Db/Integrity.antt =====
-- Referential integrity: what the foreign keys of internal/db/migrations promise of the tables.
mod Elements
pub mod Creation
pub mod Details
pub mod Deletion
pub mod Saving
pub mod Configuring
pub mod Facts
use oastrix.Prelude.{ℕ, ◌≤◌, ◌<◌, ◌≡◌, Bool, true, All}
use oastrix.Models.{Token, InteractionRow, HttpInteraction, DnsInteraction, AttributeRow, ConfigRow}
use oastrix.Db.{Db}
use oastrix.Db.Interactions.{token_exists, interaction_exists}

-- IDs are positive and not above the counters, and each reference names a row.
pub record IsWellFormed (db : Db) : Type 0 where
  pub enforced : db.foreign_keys ≡ true
  pub tokens_numbered : All (λ (t : Token). (1 ≤ t.id) × (t.id ≤ db.last_token)) db.tokens
  pub rows_numbered : All (λ (i : InteractionRow). i.id ≤ db.last_interaction) db.interactions
  pub rows_owned :
      All (λ (i : InteractionRow). token_exists i.token_id db.tokens ≡ true) db.interactions
  pub http_owned :
      All
        (λ (h : HttpInteraction). interaction_exists h.interaction_id db.interactions ≡ true)
        db.http_interactions
  pub dns_owned :
      All
        (λ (d : DnsInteraction). interaction_exists d.interaction_id db.interactions ≡ true)
        db.dns_interactions
  pub attributes_owned :
      All
        (λ (a : AttributeRow). interaction_exists a.interaction_id db.interactions ≡ true)
        db.attributes
  pub configs_owned :
      All (λ (c : ConfigRow). token_exists c.token_id db.tokens ≡ true) db.plugin_configs
