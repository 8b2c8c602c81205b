-- ===== src/Db/Tokens.antt =====
-- internal/db/tokens.go, and `ListTokensByAPIKey` of internal/db/db.go. A table holds its newest
-- row first.
pub mod Laws
pub mod Sorting
pub mod Deletion
use oastrix.Prelude.{
  ℕ, suc, ◌+◌, Str, Bool, true, false, not, ◌&&◌, Option, none, some, List, [], ◌∷◌, map,
  if◌then◌else◌, leb, ◌==◌, str_eq, is_some, keep,
}
use oastrix.Failure.{unique, foreign_key}
use oastrix.Models.{
  ApiKey, Token, InteractionRow, HttpInteraction, DnsInteraction, AttributeRow, ConfigRow,
}
use oastrix.Db.{Db, Exec, ◌>>=◌, pure, fail, statement, now, elem}

unfoldable pub find_token : Str → List Token → Option Token
find_token v [] = none
find_token v (t ∷ ts) = if str_eq t.token v then some t else find_token v ts

-- Whether a reference to an API key is good; NULL refers to nothing.
abbrev pub key_exists : Option ℕ → List ApiKey → Bool
key_exists none keys = true
key_exists (some id) keys = elem id (map (λ (k : ApiKey). k.id) keys)

abbrev pub insert_token : Str → Option ℕ → Option Str → ℕ → Exec ℕ
insert_token token key label created db =
    if is_some (find_token token db.tokens)
    then fail unique db
    else if db.foreign_keys && not (key_exists key db.api_keys)
    then fail foreign_key db
    else pure (suc db.last_token) (record db {
      tokens =
          record {
            id = suc db.last_token;
            token = token;
            api_key_id = key;
            created_at = created;
            label = label;
          }
          ∷ db.tokens;
      last_token = suc db.last_token;
    })

unfoldable pub create_token : Str → Option ℕ → Option Str → Exec ℕ
create_token token key label = do created ← now; statement (insert_token token key label created)

unfoldable pub get_token_by_value : Str → Exec (Option Token)
get_token_by_value token = statement (λ db. pure (find_token token db.tokens) db)

-- The ON DELETE CASCADE clauses of the tables below `interactions`, and below `tokens`.
unfoldable pub cascade_interactions : List ℕ → Db → Db
cascade_interactions gone db = record db {
  http_interactions =
      keep (λ (h : HttpInteraction). not (elem h.interaction_id gone)) db.http_interactions;
  dns_interactions =
      keep (λ (d : DnsInteraction). not (elem d.interaction_id gone)) db.dns_interactions;
  attributes = keep (λ (a : AttributeRow). not (elem a.interaction_id gone)) db.attributes;
}

abbrev pub belongs : List ℕ → InteractionRow → Bool
belongs gone i = elem i.token_id gone

unfoldable pub cascade_tokens : List ℕ → Db → Db
cascade_tokens gone db =
    cascade_interactions (map (λ (i : InteractionRow). i.id) (keep (belongs gone) db.interactions))
      (record db {
        interactions = keep (λ i. not (belongs gone i)) db.interactions;
        plugin_configs = keep (λ (c : ConfigRow). not (elem c.token_id gone)) db.plugin_configs;
      })

abbrev pub delete_where : Str → Db → Db
delete_where token db =
    let gone = map (λ (t : Token). t.id) (keep (λ (t : Token). str_eq t.token token) db.tokens) in
    let rest = record db { tokens = keep (λ (t : Token). not (str_eq t.token token)) db.tokens } in
    if db.foreign_keys then cascade_tokens gone rest else rest

unfoldable pub delete_token : Str → Exec (Unit {0})
delete_token token = statement (λ db. pure tt (delete_where token db))

pub record TokenWithCount : Type 0 where
  pub token : Str
  pub label : Option Str
  pub created_at : ℕ
  pub interaction_count : ℕ

-- `COUNT(i.id)` over the joined rows of one token.
unfoldable pub count_interactions : ℕ → List InteractionRow → ℕ
count_interactions id [] = 0
count_interactions id (i ∷ is) = (if i.token_id == id then 1 else 0) + count_interactions id is

abbrev pub owned_by : ℕ → Token → Bool
owned_by key t = elim t.api_key_id [ none ↦ false | some id ↦ id == key ]

abbrev pub with_count : List InteractionRow → Token → TokenWithCount
with_count is t = record {
  token = t.token;
  label = t.label;
  created_at = t.created_at;
  interaction_count = count_interactions t.id is;
}

-- `ORDER BY … DESC`. SQL leaves the order of rows with one time open; this is one such order.
module _ {ℓ} {A : Type ℓ} (time : A → ℕ) where
  unfoldable pub insert_desc : A → List A → List A
  insert_desc x [] = x ∷ []
  insert_desc x (y ∷ ys) =
      let rest = insert_desc x ys in if leb (time y) (time x) then x ∷ y ∷ ys else y ∷ rest

  unfoldable pub sort_desc : List A → List A
  unfolding insert_desc
  sort_desc [] = []
  sort_desc (x ∷ xs) = insert_desc x (sort_desc xs)

abbrev pub select_tokens : ℕ → Db → List TokenWithCount
select_tokens key db =
    sort_desc (λ t. t.created_at) (map (with_count db.interactions) (keep (owned_by key) db.tokens))

unfoldable pub list_tokens_by_api_key : ℕ → Exec (List TokenWithCount)
list_tokens_by_api_key key = statement (λ db. pure (select_tokens key db) db)
