-- ===== src/Db/Interactions.antt =====
-- internal/db/interactions.go
use oastrix.Prelude.{
  ℤ, ℕ, suc, Str, Bool, not, ◌&&◌, Option, none, some, List, [], ◌∷◌, map, if◌then◌else◌, ◌==◌,
  is_some, keep,
}
use oastrix.Failure.{unique, foreign_key}
use oastrix.Models.{Token, Interaction, InteractionRow, HttpInteraction, DnsInteraction}
use oastrix.Db.{Db, Exec, ◌>>=◌, pure, fail, statement, now, elem}
use oastrix.Db.Tokens.{sort_desc}

abbrev pub token_exists : ℕ → List Token → Bool
token_exists id tokens = elem id (map (λ (t : Token). t.id) tokens)

abbrev pub interaction_exists : ℕ → List InteractionRow → Bool
interaction_exists id rows = elem id (map (λ (i : InteractionRow). i.id) rows)

abbrev pub insert_interaction : ℕ → Str → Str → ℤ → ℕ → Str → ℕ → Exec ℕ
insert_interaction token_id kind ip port tls summary occurred db =
    if db.foreign_keys && not (token_exists token_id db.tokens)
    then fail foreign_key db
    else pure (suc db.last_interaction) (record db {
      interactions =
          record {
            id = suc db.last_interaction;
            token_id = token_id;
            kind = kind;
            occurred_at = occurred;
            remote_ip = ip;
            remote_port = port;
            tls = tls;
            summary = summary;
          }
          ∷ db.interactions;
      last_interaction = suc db.last_interaction;
    })

unfoldable pub create_interaction : ℕ → Str → Str → ℤ → Bool → Str → Exec ℕ
create_interaction token_id kind ip port tls summary = do
  occurred ← now
  statement (insert_interaction token_id kind ip port (if tls then 1 else 0) summary occurred)

unfoldable pub find_http : ℕ → List HttpInteraction → Option HttpInteraction
find_http id [] = none
find_http id (h ∷ hs) = if h.interaction_id == id then some h else find_http id hs

unfoldable pub find_dns : ℕ → List DnsInteraction → Option DnsInteraction
find_dns id [] = none
find_dns id (d ∷ ds) = if d.interaction_id == id then some d else find_dns id ds

abbrev pub insert_http : HttpInteraction → Exec (Unit {0})
insert_http h db =
    if is_some (find_http h.interaction_id db.http_interactions)
    then fail unique db
    else if db.foreign_keys && not (interaction_exists h.interaction_id db.interactions)
    then fail foreign_key db
    else pure tt (record db { http_interactions = h ∷ db.http_interactions })

-- The arguments of the source, as the row that they make.
unfoldable pub create_http_interaction : HttpInteraction → Exec (Unit {0})
create_http_interaction h = statement (insert_http h)

abbrev pub insert_dns : DnsInteraction → Exec (Unit {0})
insert_dns d db =
    if is_some (find_dns d.interaction_id db.dns_interactions)
    then fail unique db
    else if db.foreign_keys && not (interaction_exists d.interaction_id db.interactions)
    then fail foreign_key db
    else pure tt (record db { dns_interactions = d ∷ db.dns_interactions })

unfoldable pub create_dns_interaction : DnsInteraction → Exec (Unit {0})
create_dns_interaction d = statement (insert_dns d)

abbrev pub scan_interaction : InteractionRow → Interaction
scan_interaction r = record {
  id = r.id;
  token_id = r.token_id;
  kind = r.kind;
  occurred_at = r.occurred_at;
  remote_ip = r.remote_ip;
  remote_port = r.remote_port;
  tls = not (r.tls == 0);
  summary = r.summary;
}

abbrev pub select_interactions : ℕ → Db → List Interaction
select_interactions token_id db =
    map scan_interaction
      (sort_desc (λ r. r.occurred_at) (keep (λ r. r.token_id == token_id) db.interactions))

unfoldable pub get_interactions_by_token : ℕ → Exec (List Interaction)
get_interactions_by_token token_id = statement (λ db. pure (select_interactions token_id db) db)

unfoldable pub get_http_interaction : ℕ → Exec (Option HttpInteraction)
get_http_interaction id = statement (λ db. pure (find_http id db.http_interactions) db)

unfoldable pub get_dns_interaction : ℕ → Exec (Option DnsInteraction)
get_dns_interaction id = statement (λ db. pure (find_dns id db.dns_interactions) db)
