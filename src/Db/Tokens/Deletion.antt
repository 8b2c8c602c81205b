-- ===== src/Db/Tokens/Deletion.antt =====
-- What `DeleteToken` of internal/db/tokens.go leaves where the foreign keys are enforced.
use oastrix.Prelude.{
  if◌then◌else◌, ℕ, ◌≡◌, refl, ◌∙◌, ap, Str, Bool, true, not, ◌&&◌, List, [], ◌∷◌, map, keep, any,
  arith, ◌==◌, str_eq,
}
use oastrix.Models.{Token, InteractionRow, HttpInteraction, DnsInteraction, AttributeRow, ConfigRow}
use oastrix.Db.{Db, elem}
use oastrix.Db.Tokens.{delete_where, cascade_tokens, cascade_interactions, belongs}

module _ (v : Str) (db : Db) where
  -- Whether there is a token with the value and an ID.
  abbrev pub is_token : ℕ → Bool
  is_token id = any (λ (t : Token). str_eq t.token v && t.id == id) db.tokens

  -- Whether there is an interaction of such a token with an ID.
  abbrev pub is_row : ℕ → Bool
  is_row id = any (λ (i : InteractionRow). is_token i.token_id && i.id == id) db.interactions

  -- The database without the token of the value, without its interactions and its plugin
  -- configuration, and without the details and the attributes of these interactions.
  abbrev pub without_token : Db
  without_token = record db {
    tokens = keep (λ (t : Token). not (str_eq t.token v)) db.tokens;
    interactions = keep (λ (i : InteractionRow). not (is_token i.token_id)) db.interactions;
    http_interactions =
        keep (λ (h : HttpInteraction). not (is_row h.interaction_id)) db.http_interactions;
    dns_interactions =
        keep (λ (d : DnsInteraction). not (is_row d.interaction_id)) db.dns_interactions;
    attributes = keep (λ (a : AttributeRow). not (is_row a.interaction_id)) db.attributes;
    plugin_configs = keep (λ (c : ConfigRow). not (is_token c.token_id)) db.plugin_configs;
  }

elem-map-keep :
    {A : Type 0} (id : A → ℕ) (p : A → Bool) (n : ℕ) (xs : List A)
    → elem n (map id (keep p xs)) ≡ any (λ x. p x && id x == n) xs
unfolding keep any
elem-map-keep id p n [] = refl
elem-map-keep id p n (x ∷ xs) = ground (arith, elem-map-keep id p n xs)

pub delete_where-without_token :
    (v : Str) (db : Db) → db.foreign_keys ≡ true → delete_where v db ≡ without_token v db
unfolding cascade_tokens cascade_interactions
delete_where-without_token v db enforced =
    let gone = map (λ (t : Token). t.id) (keep (λ (t : Token). str_eq t.token v) db.tokens) in
    let token_gone : (n : ℕ) → elem n gone ≡ is_token v db n =
      λ n. elem-map-keep (λ (t : Token). t.id) (λ (t : Token). str_eq t.token v) n db.tokens in
    let row_gone : (n : ℕ)
        → elem n (map (λ (i : InteractionRow). i.id) (keep (belongs gone) db.interactions))
          ≡ is_row v db n =
      λ n. elem-map-keep (λ (i : InteractionRow). i.id) (belongs gone) n db.interactions ∙ (λ k.
        any (λ (i : InteractionRow). token_gone i.token_id k && i.id == n) db.interactions) in
    let rest = record db { tokens = keep (λ (t : Token). not (str_eq t.token v)) db.tokens } in
    ap (λ b. if b then cascade_tokens gone rest else rest) enforced ∙ (λ k. record db {
      tokens = keep (λ (t : Token). not (str_eq t.token v)) db.tokens;
      interactions = keep (λ (i : InteractionRow). not (token_gone i.token_id k)) db.interactions;
      http_interactions =
          keep (λ (h : HttpInteraction). not (row_gone h.interaction_id k)) db.http_interactions;
      dns_interactions =
          keep (λ (d : DnsInteraction). not (row_gone d.interaction_id k)) db.dns_interactions;
      attributes = keep (λ (a : AttributeRow). not (row_gone a.interaction_id k)) db.attributes;
      plugin_configs = keep (λ (c : ConfigRow). not (token_gone c.token_id k)) db.plugin_configs;
    })
