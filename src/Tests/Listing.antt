-- ===== src/Tests/Listing.antt =====
-- The listings of a database with three tokens and two interactions.
use oastrix.Prelude.{pos, ℕ, ◌≡◌, refl, bytes, none, List, [], ◌∷◌, map, keep}
use mathlib.Core.List.{Perm}
use oastrix.Failure.{ok}
use oastrix.Models.{Token, InteractionRow}
use oastrix.Events.{kind_http}
use oastrix.Db.{Db}
use oastrix.Db.Tokens.{TokenWithCount, list_tokens_by_api_key}
use oastrix.Db.Tokens.Sorting.{listed, is_key, IsDescending, list_tokens_by_api_key-listed}
use oastrix.Tests.Data.{db, ip, token_row}

abbrev hit : ℕ → ℕ → InteractionRow
hit id at = record {
  id = id;
  token_id = 1;
  kind = kind_http;
  occurred_at = at;
  remote_ip = ip;
  remote_port = pos 80;
  tls = 0;
  summary = [];
}

abbrev busy : Db
busy = record db {
  tokens =
      record token_row { id = 3; token = bytes "ccc"; created_at = 4 }
      ∷ record token_row { id = 2; token = bytes "bbb"; api_key_id = none; created_at = 9 }
      ∷ token_row
      ∷ [];
  last_token = 3;
  interactions = hit 2 11 ∷ hit 1 12 ∷ [];
  last_interaction = 2;
}

list_tokens_by_api_key-listed_example :
    (ts : List TokenWithCount) × (list_tokens_by_api_key 1 busy ≡ (ok ts, busy))
    × IsDescending (λ t. t.created_at) ts
    × Perm ts
        (map (listed busy.interactions) (keep (λ (t : Token). is_key 1 t.api_key_id) busy.tokens))
list_tokens_by_api_key-listed_example = list_tokens_by_api_key-listed 1 busy refl
