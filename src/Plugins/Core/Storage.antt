-- ===== src/Plugins/Core/Storage.antt =====
-- The storage plugin: internal/plugins/core/storage/plugin.go. The state that it works on is the
-- database. An event's draft is dereferenced without a test: a nil draft panics.
pub mod Rows
pub mod Integrity
use oastrix.Db.Interactions
use oastrix.Db.Attributes
use oastrix.Prelude.{ℕ, Str, bytes, true, not, Option, none, some, [], if◌then◌else◌, ◌==◌, str_eq}
use oastrix.Failure.{Result, ok, err}
use oastrix.Models.{Token, HttpInteraction, DnsInteraction}
use oastrix.Events.{Event, InteractionDraft, HttpDraft, DnsDraft, kind_http, kind_dns}
use oastrix.Runtime.{Runtime}
use oastrix.Db.{Db, Exec, ◌>>=◌, ◌>>◌, pure}
use oastrix.Db.Tokens.{get_token_by_value}
use oastrix.Db.Interactions.{create_http_interaction, create_dns_interaction}
use oastrix.Plugins.Interfaces.{Fault, error, panic, Hook, Store, Plugin}

abbrev pub resolved :
    Event → InteractionDraft → Result (Option Token) × Db → Option Fault × Event × Db
resolved e draft (err x, db) = (some (error x), e, db)
resolved e draft (ok none, db) = (none, e, db)
resolved e draft (ok (some token), db) =
    (none, record e { draft = some (record draft { token_id = token.id }) }, db)

unfoldable pub on_pre_store : Hook Db Event
on_pre_store e db = elim e.draft [
  | none ↦ (some panic, e, db)
  | some draft ↦
      if not (draft.token_id == 0)
      then (none, e, db)
      else if str_eq draft.token_value []
      then (none, e, db)
      else resolved e draft (get_token_by_value draft.token_value db)
]

abbrev pub token_id_of : Option Token → Option ℕ
token_id_of none = none
token_id_of (some t) = some t.id

unfoldable pub resolve_token_id : Str → Exec (Option ℕ)
resolve_token_id token_value = do token ← get_token_by_value token_value; pure (token_id_of token)

abbrev pub http_row : Runtime → ℕ → HttpDraft → HttpInteraction
http_row rt id h = record {
  interaction_id = id;
  method = h.method;
  scheme = h.scheme;
  host = h.host;
  path = h.path;
  query = h.query;
  http_version = h.proto;
  request_headers = rt.marshal_headers h.headers;
  request_body = h.body;
}

abbrev pub dns_row : ℕ → DnsDraft → DnsInteraction
dns_row id d = record {
  interaction_id = id;
  qname = d.qname;
  qtype = d.qtype;
  qclass = d.qclass;
  rd = d.rd;
  opcode = d.opcode;
  dns_id = d.dns_id;
  protocol = d.protocol;
}

abbrev pub http_details : Runtime → ℕ → Option HttpDraft → Exec (Unit {0})
http_details rt id none = pure tt
http_details rt id (some h) = create_http_interaction (http_row rt id h)

abbrev pub dns_details : ℕ → Option DnsDraft → Exec (Unit {0})
dns_details id none = pure tt
dns_details id (some d) = create_dns_interaction (dns_row id d)

-- `switch draft.Kind`. A map of lists of strings always has a JSON encoding.
unfoldable pub create_details : Runtime → ℕ → InteractionDraft → Exec (Unit {0})
create_details rt id draft =
    if str_eq draft.kind kind_http
    then http_details rt id draft.http
    else if str_eq draft.kind kind_dns
    then dns_details id draft.dns
    else pure tt

unfoldable pub create_interaction : Runtime → InteractionDraft → Exec ℕ
unfolding create_details
create_interaction rt draft = if draft.token_id == 0 then pure 0 else (do
  id ←
      Interactions.create_interaction draft.token_id draft.kind draft.remote_ip draft.remote_port
        draft.tls draft.summary
  create_details rt id draft
  pure id)

abbrev pub storage_store : Runtime → Store Db
storage_store rt = record {
  resolve_token_id = resolve_token_id;
  create_interaction = create_interaction rt;
  save_attributes = Attributes.save_attributes;
}

abbrev pub storage_plugin : Plugin Db
storage_plugin = record {
  id = bytes "storage";
  is_core = some true;
  config = none;
  on_pre_store = some on_pre_store;
  on_post_store = none;
  on_http_response = none;
  on_dns_response = none;
}
