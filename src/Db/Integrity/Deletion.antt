-- ===== src/Db/Integrity/Deletion.antt =====
-- Referential integrity and DeleteToken of internal/db/tokens.go.
use oastrix.Prelude.{
  ℕ, ◌≡◌, Str, Bool, true, false, not, List, map, arith, All, All-keep, keep, str_eq, if◌then◌else◌,
}
use oastrix.Models.{Token, InteractionRow, HttpInteraction, DnsInteraction, AttributeRow, ConfigRow}
use oastrix.Db.{Db, pure, elem}
use oastrix.Db.Tokens.{delete_token, delete_where, cascade_tokens, cascade_interactions, belongs}
use oastrix.Db.Integrity.{IsWellFormed}
use oastrix.Db.Integrity.Elements.{elem-keep}
use oastrix.Db.Integrity.Creation.{statement-IsWellFormed, moved-IsWellFormed}

-- A reference that does not name a deleted row names one that is left.
left :
    {A B : Type 0} (id : A → ℕ) (ref : B → ℕ) (p : A → Bool) (rows : List A) (refs : List B)
    → All (λ b. elem (ref b) (map id rows) ≡ true) refs
    → All
        (λ b. elem (ref b) (map id (keep (λ a. not (p a)) rows)) ≡ true)
        (keep (λ b. not (elem (ref b) (map id (keep p rows)))) refs)
left id ref p rows refs h =
    All-keep (λ b. not (elem (ref b) (map id (keep p rows))))
      (λ b passes there. elem-keep id p (ref b) rows there (ground arith)) refs h

cascade-IsWellFormed :
    (p : Token → Bool) (db : Db)
    → IsWellFormed db
    → IsWellFormed (
        cascade_tokens
          (map (λ (t : Token). t.id) (keep p db.tokens))
          (record db { tokens = keep (λ t. not (p t)) db.tokens }))
unfolding cascade_tokens cascade_interactions
cascade-IsWellFormed p db w =
    let gone = map (λ (t : Token). t.id) (keep p db.tokens) in
    record {
      enforced = w.enforced;
      tokens_numbered = All-keep (λ t. not (p t)) (λ t passes h. h) db.tokens w.tokens_numbered;
      rows_numbered =
          All-keep (λ i. not (belongs gone i)) (λ i passes h. h) db.interactions w.rows_numbered;
      rows_owned =
          left (λ (t : Token). t.id) (λ (i : InteractionRow). i.token_id) p db.tokens
            db.interactions w.rows_owned;
      http_owned =
          left (λ (i : InteractionRow). i.id) (λ (h : HttpInteraction). h.interaction_id)
            (belongs gone) db.interactions db.http_interactions w.http_owned;
      dns_owned =
          left (λ (i : InteractionRow). i.id) (λ (d : DnsInteraction). d.interaction_id)
            (belongs gone) db.interactions db.dns_interactions w.dns_owned;
      attributes_owned =
          left (λ (i : InteractionRow). i.id) (λ (a : AttributeRow). a.interaction_id)
            (belongs gone) db.interactions db.attributes w.attributes_owned;
      configs_owned =
          left (λ (t : Token). t.id) (λ (c : ConfigRow). c.token_id) p db.tokens db.plugin_configs
            w.configs_owned;
    }

then_branch : (b : Bool) (x y : Db) → b ≡ true → IsWellFormed x → IsWellFormed (if b then x else y)
then_branch true x y e w = w
then_branch false x y e w = cc (e)

delete_where-IsWellFormed : (v : Str) (db : Db) → IsWellFormed db → IsWellFormed (delete_where v db)
delete_where-IsWellFormed v db w =
    then_branch db.foreign_keys _ _ w.enforced (cascade-IsWellFormed (λ t. str_eq t.token v) db w)

pub delete_token-IsWellFormed :
    (v : Str) (db : Db) → IsWellFormed db → IsWellFormed (delete_token v db).1
unfolding delete_token
delete_token-IsWellFormed v db w =
    statement-IsWellFormed (λ d. pure tt (delete_where v d)) db
      (λ fs.
        delete_where-IsWellFormed v (record db { faults = fs })
          (moved-IsWellFormed db db.reads fs w))
      w
