-- ===== src/Server/Api/Handlers/Listing.antt =====
-- The list that `handleGetInteractions` of internal/server/api.go sends.
use oastrix.Prelude.{
  ◌≢◌, ℕ, ◌≡◌, refl, ◌∙◌, ap, Str, Bool, true, false, some, List, [], ◌∷◌, ◌++◌, map, map-append,
  arith, leb, ◌==◌, Bool-cases, inl, inr, keep, ==_iff,
}
use oastrix.Failure.{ok}
use oastrix.Models.{Token, Interaction, InteractionRow}
use oastrix.Runtime.{Runtime}
use oastrix.Db.{Db}
use oastrix.Db.Tokens.{find_token, owned_by, insert_desc, sort_desc}
use oastrix.Db.Interactions.{
  get_interactions_by_token, get_http_interaction, get_dns_interaction, scan_interaction,
  select_interactions,
}
use oastrix.Server.Api.Types.{write_json, get_interactions_response}
use oastrix.Server.Api.Flow.{returned}
use oastrix.Server.Api.Access.Owner.{owned_token-owned}
use oastrix.Server.Api.Handlers.{
  read_http, read_dns, interaction_response, interaction_responses, handle_get_interactions,
}

module _ {ℓ} {A : Type ℓ} where
  -- Where an element stands in a list.
  pub record Within (x : A) (xs : List A) : Type ℓ where
    pub before : List A
    pub after : List A
    pub split : xs ≡ before ++ x ∷ after

  insert_desc-Within : (time : A → ℕ) (x : A) (xs : List A) → Within x (insert_desc time x xs)
  unfolding insert_desc
  insert_desc-Within time x [] = record { before = []; after = []; split = refl }
  insert_desc-Within time x (y ∷ ys) = elim (Bool-cases (leb (time y) (time x))) [
    | inl here ↦ record { before = []; after = y ∷ ys; split = rw (here, insert_desc) refl }
    | inr later ↦
        let ih = insert_desc-Within time x ys in
        record {
          before = y ∷ ih.before;
          after = ih.after;
          split = rw (later, insert_desc) (ap (λ r. y ∷ r) ih.split);
        }
  ]

map-Within :
    {A B : Type 0} (f : A → B) (x : A) (xs : List A) → Within x xs → Within (f x) (map f xs)
map-Within f x xs w = record {
  before = map f w.before;
  after = map f w.after;
  split = ap (map f) w.split ∙ map-append f w.before (x ∷ w.after);
}

interaction_response-db :
    (rt : Runtime) (i : Interaction) (db : Db)
    → db.faults ≡ []
    → (interaction_response rt i db).1 ≡ db
unfolding interaction_response read_http read_dns get_http_interaction get_dns_interaction
interaction_response-db rt i db sound = ground arith

interaction_responses-map :
    (rt : Runtime) (is : List Interaction) (db : Db)
    → db.faults ≡ []
    → interaction_responses rt is db ≡ (map (λ i. (interaction_response rt i db).0) is, db)
unfolding interaction_responses
interaction_responses-map rt [] db sound = refl
interaction_responses-map rt (i ∷ is) db sound =
    rw (interaction_response-db rt i db sound, interaction_responses-map rt is db sound) refl

get_interactions_by_token_sound :
    (id : ℕ) (db : Db)
    → db.faults ≡ []
    → get_interactions_by_token id db ≡ (ok (select_interactions id db), db)
unfolding get_interactions_by_token
get_interactions_by_token_sound id db sound = ground arith

pub handle_get_interactions-owned :
    (rt : Runtime) (v : Str) (key : ℕ) (db : Db) (t : Token)
    → db.faults ≡ []
    → v ≢ []
    → find_token v db.tokens ≡ some t
    → owned_by key t ≡ true
    → handle_get_interactions rt v key db ≡ (
      returned (
          write_json 200 (
            get_interactions_response v
              (map (λ i. (interaction_response rt i db).0) (select_interactions t.id db)))),
      db,
    )
unfolding handle_get_interactions
handle_get_interactions-owned rt v key db t sound ne found mine =
    rw
      (
        owned_token-owned v key db t sound ne found mine,
        get_interactions_by_token_sound t.id db sound,
        interaction_responses-map rt (select_interactions t.id db) db sound,
      )
      refl

kept-Within :
    (b : Bool) (row : InteractionRow) (rows : List InteractionRow)
    → b ≡ true
    → Within row (
        sort_desc
          (λ (r : InteractionRow). r.occurred_at)
          (elim b [ true ↦ row ∷ rows | false ↦ rows ]))
unfolding sort_desc
kept-Within true row rows e =
    insert_desc-Within (λ (r : InteractionRow). r.occurred_at) row
      (sort_desc (λ (r : InteractionRow). r.occurred_at) rows)
kept-Within false row rows e = cc (e)

-- A row that stands first in its table is selected for its token.
pub select_interactions-Within :
    (row : InteractionRow) (rows : List InteractionRow) (db : Db)
    → db.interactions ≡ row ∷ rows
    → Within (scan_interaction row) (select_interactions row.token_id db)
unfolding keep
select_interactions-Within row rows db first = rw first (
    map-Within scan_interaction row _ (
      kept-Within (row.token_id == row.token_id) row (keep (λ r. r.token_id == row.token_id) rows)
        ((==_iff row.token_id row.token_id).1 refl)))

-- What is shown of an interaction that was selected is in the answer.
pub shown-Within :
    (rt : Runtime) (i : Interaction) (id : ℕ) (db : Db)
    → Within i (select_interactions id db)
    → Within
        (interaction_response rt i db).0
        (map (λ i'. (interaction_response rt i' db).0) (select_interactions id db))
shown-Within rt i id db w =
    map-Within (λ i'. (interaction_response rt i' db).0) i (select_interactions id db) w
