-- ===== src/Plugins/Core/Storage/Rows.antt =====
-- The rows that the storage plugin writes.
use oastrix.Db.Interactions
use oastrix.Plugins.Core.Storage.{
  create_details, dns_row, on_pre_store, create_interaction, http_row,
}
use oastrix.Events.{kind_dns, DnsDraft, InteractionDraft, HttpDraft, kind_http}
use oastrix.Prelude.{
  str_eq, ℕ, suc, ◌≡◌, ◌≢◌, Str, true, none, some, List, [], ◌∷◌, arith, if◌then◌else◌, str_eq_iff,
}
use oastrix.Failure.{ok}
use oastrix.Models.{Token, InteractionRow}
use oastrix.Runtime.{Runtime}
use oastrix.Db.{Db}
use oastrix.Db.Tokens.{find_token, get_token_by_value}
use oastrix.Db.Interactions.{
  find_http, find_dns, create_http_interaction, create_dns_interaction, token_exists,
}

pub find_token-token_exists :
    (v : Str) (tokens : List Token) (t : Token)
    → find_token v tokens ≡ some t
    → token_exists t.id tokens ≡ true
unfolding find_token
find_token-token_exists v [] t h = cc
find_token-token_exists v (u ∷ tokens) t h = ground (arith, find_token-token_exists v tokens t)

abbrev pub with_token : InteractionDraft → ℕ → InteractionDraft
with_token d id = record d { token_id = id }

-- The PreStore hook resolves a known token.
pub on_pre_store-known :
    (d : InteractionDraft) (n : ℕ) (db : Db) (t : Token)
    → db.faults ≡ []
    → d.token_id ≡ 0
    → d.token_value ≢ []
    → find_token d.token_value db.tokens ≡ some t
    → on_pre_store (record { draft = some d; interaction_id = n }) db
      ≡ (none, record { draft = some (with_token d t.id); interaction_id = n }, db)
unfolding on_pre_store get_token_by_value
on_pre_store-known d n db t sound fresh ne found = ground (arith, str_eq_iff d.token_value [])

pub on_pre_store-unknown :
    (d : InteractionDraft) (n : ℕ) (db : Db)
    → db.faults ≡ []
    → find_token d.token_value db.tokens ≡ none
    → on_pre_store (record { draft = some d; interaction_id = n }) db
      ≡ (none, record { draft = some d; interaction_id = n }, db)
unfolding on_pre_store get_token_by_value
on_pre_store-unknown d n db sound missing = ground arith

-- The row of an interaction, written when the clock is read for the next time.
abbrev pub row_of : InteractionDraft → Db → InteractionRow
row_of d db = record {
  id = suc db.last_interaction;
  token_id = d.token_id;
  kind = d.kind;
  occurred_at = db.clock db.reads;
  remote_ip = d.remote_ip;
  remote_port = d.remote_port;
  tls = if d.tls then 1 else 0;
  summary = d.summary;
}

abbrev pub with_row : InteractionDraft → Db → Db
with_row d db = record db {
  interactions = row_of d db ∷ db.interactions;
  last_interaction = suc db.last_interaction;
  reads = suc db.reads;
}

pub create_interaction-http :
    (rt : Runtime) (d : InteractionDraft) (h : HttpDraft) (db : Db)
    → db.faults ≡ []
    → d.token_id ≢ 0
    → token_exists d.token_id db.tokens ≡ true
    → d.kind ≡ kind_http
    → d.http ≡ some h
    → find_http (suc db.last_interaction) db.http_interactions ≡ none
    → create_interaction rt d db ≡ (
      ok (suc db.last_interaction),
      record (with_row d db) {
        http_interactions = http_row rt (suc db.last_interaction) h ∷ db.http_interactions;
      },
    )
unfolding create_interaction Interactions.create_interaction create_http_interaction
create_interaction-http rt d h db sound resolved there kind details free =
    ground (arith, str_eq_iff d.kind kind_http)

pub create_interaction-dns :
    (rt : Runtime) (d : InteractionDraft) (q : DnsDraft) (db : Db)
    → db.faults ≡ []
    → d.token_id ≢ 0
    → token_exists d.token_id db.tokens ≡ true
    → d.kind ≡ kind_dns
    → d.dns ≡ some q
    → find_dns (suc db.last_interaction) db.dns_interactions ≡ none
    → create_interaction rt d db ≡ (
      ok (suc db.last_interaction),
      record (with_row d db) {
        dns_interactions = dns_row (suc db.last_interaction) q ∷ db.dns_interactions;
      },
    )
unfolding create_interaction Interactions.create_interaction create_dns_interaction str_eq
create_interaction-dns rt d q db sound resolved there kind details free =
    rw (kind, create_interaction, create_details) (ground arith)
