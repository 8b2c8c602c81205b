-- ===== src/Cmd/Server/HttpRecording.antt =====
-- An HTTP request from the listener to the database, through the pipeline that `runServer` builds.
use oastrix.Prelude.{
  ap, ℤ, pos, atoi, digits_value, Bool, false, bytes, ◌++◌, if◌then◌else◌, str_eq_iff, arith, ◌∙◌,
  true, Option, suc, ◌≡◌, ◌≢◌, refl, Str, none, some, [], ◌∷◌,
}
use oastrix.Plugins.Core.Storage.Rows.{
  on_pre_store-unknown, on_pre_store-known, create_interaction-http, with_row, with_token,
  find_token-token_exists,
}
use oastrix.Plugins.Core.Storage.{create_interaction, http_row}
use oastrix.Server.Host.{split_host_port, is_valid_host, extract_token}
use oastrix.Server.Http.{
  HttpReply, serve_http, HttpServer, replied, remote, scheme_of, body_of, record_interaction,
  draft_of, http_draft_of, plain_ok,
}
use oastrix.Models.{Token, InteractionRow, HttpInteraction}
use oastrix.Events.{InteractionDraft, HttpRequest}
use oastrix.Runtime.{Runtime}
use oastrix.Db.{Db}
use oastrix.Db.Tokens.{find_token}
use oastrix.Db.Integrity.{IsWellFormed}
use oastrix.Db.Integrity.Facts.{token_id-positive, find_http-fresh}
use oastrix.Db.Interactions.{find_http}
use oastrix.Plugins.Pipeline.{process_http, run_event_hooks, run_response_hooks, store_step}
use oastrix.Plugins.Core.DefaultResponse.{on_http_response}
use oastrix.Cmd.Server.{server_pipeline}

-- The server that `runServer` builds.
abbrev pub http_server : Runtime → Str → Str → HttpServer
http_server rt domain ip = record {
  pipeline = server_pipeline rt ip;
  domain = domain;
  public_ip = ip;
}

-- The client: what stands before the port in the address of the connection and the value of the
-- port, or the whole of an address without a port.
abbrev pub client_at : Str → Option (Str × Str) → Str × ℤ
client_at addr none = (addr, pos 0)
client_at addr (some (ip, port)) = (ip, (atoi port).0)

remote-client_at : (addr : Str) → remote addr ≡ client_at addr (split_host_port addr)
unfolding remote atoi digits_value
remote-client_at addr = by_parts (split_host_port addr)
  where
    by_parts :
        (o : Option (Str × Str))
        → elim o [ none ↦ (addr, (atoi (bytes "0")).0) | some (ip, port) ↦ (ip, (atoi port).0) ]
          ≡ client_at addr o
    by_parts none = refl
    by_parts (some (ip, port)) = refl

scheme_of-if : (tls : Bool) → scheme_of tls ≡ (if tls then bytes "https" else bytes "http")
scheme_of-if true = refl
scheme_of-if false = refl

body_of-elim : (body : Option Str) → body_of body ≡ elim body [ none ↦ [] | some b ↦ b ]
body_of-elim none = refl
body_of-elim (some b) = refl

module _ (rt : Runtime) (domain ip : Str) (r : HttpRequest) (tok : Str) (db : Db) where
  -- The database after the time of the request was read.
  abbrev pub read_db : Db
  read_db = record db { reads = suc db.reads }

  abbrev draft : InteractionDraft
  draft = draft_of r tok (db.clock db.reads)

  -- The database after a request for the token `t`, as the storage plugin writes it.
  abbrev written : Token → Db
  written t = record (with_row (with_token draft t.id) read_db) {
    http_interactions =
        http_row rt (suc db.last_interaction) (http_draft_of r) ∷ db.http_interactions;
  }

  abbrev pub client : Str × ℤ
  client = client_at r.remote_addr (split_host_port r.remote_addr)

  -- The row of the interaction, and that of its details.
  abbrev pub row : Token → InteractionRow
  row t = record {
    id = suc db.last_interaction;
    token_id = t.id;
    kind = bytes "http";
    occurred_at = db.clock (suc db.reads);
    remote_ip = client.0;
    remote_port = client.1;
    tls = if r.tls then 1 else 0;
    summary = r.method ++ (bytes " " ++ (r.path ++ (bytes " " ++ r.proto)));
  }

  abbrev pub details : HttpInteraction
  details = record {
    interaction_id = suc db.last_interaction;
    method = r.method;
    scheme = if r.tls then bytes "https" else bytes "http";
    host = r.host;
    path = r.path;
    query = r.raw_query;
    http_version = r.proto;
    request_headers = rt.marshal_headers r.header;
    request_body = elim r.body [ none ↦ [] | some body ↦ body ];
  }

  -- What a request for the token `t` leaves: one row more, for that token, one row of details under
  -- its ID, and a clock that was read twice.
  abbrev pub recorded : Token → Db
  recorded t = record db {
    reads = suc (suc db.reads);
    last_interaction = suc db.last_interaction;
    interactions = row t ∷ db.interactions;
    http_interactions = details ∷ db.http_interactions;
  }

  written-recorded : (t : Token) → written t ≡ recorded t
  unfolding draft_of http_draft_of
  written-recorded t =
      rw (remote-client_at r.remote_addr, scheme_of-if r.tls, body_of-elim r.body) refl

  record_interaction-known :
      (t : Token)
      → db.faults ≡ []
      → tok ≢ []
      → find_token tok db.tokens ≡ some t
      → t.id ≢ 0
      → find_http (suc db.last_interaction) db.http_interactions ≡ none
      → record_interaction (http_server rt domain ip) r tok db ≡ (replied plain_ok, written t)
  unfolding record_interaction server_pipeline process_http run_event_hooks store_step
      run_response_hooks on_http_response
  record_interaction-known t sound ne found nonzero free = rw (
    on_pre_store-known draft 0 read_db t sound refl ne found,
    create_interaction-http rt (with_token draft t.id) (http_draft_of r) read_db sound nonzero
        (find_token-token_exists tok db.tokens t found) refl refl free,
  )

  record_interaction-unknown :
      db.faults ≡ []
      → find_token tok db.tokens ≡ none
      → record_interaction (http_server rt domain ip) r tok db ≡ (replied plain_ok, read_db)
  unfolding record_interaction server_pipeline process_http run_event_hooks store_step
      run_response_hooks on_http_response create_interaction
  record_interaction-unknown sound missing = rw (on_pre_store-unknown draft 0 read_db sound missing)

  serve_http-token :
      (challenge : HttpRequest → Option HttpReply)
      → challenge r ≡ none
      → is_valid_host r.host domain ip ≡ true
      → extract_token r.host r.path domain ≡ tok
      → tok ≢ []
      → serve_http challenge (http_server rt domain ip) r db
        ≡ record_interaction (http_server rt domain ip) r tok db
  unfolding serve_http
  serve_http-token challenge none' valid extracted ne =
      ground (arith, str_eq_iff (extract_token r.host r.path domain) [])

  -- A request to an accepted host that carries a stored token, on a server whose database works and
  -- has its referential integrity, is answered 200 "ok", and exactly one interaction is recorded: a
  -- row of the table of interactions for that token with the client's address and port, whether TLS was
  -- used and the summary, and a row of HTTP details under its ID, with the method, scheme, host,
  -- path, query, version, JSON of the headers and body of the request, each column written out. Nothing else changes but the number of times that the clock was read.
  -- The request is no ACME challenge that certmagic answers.
  pub serve_http-known :
      (challenge : HttpRequest → Option HttpReply) (t : Token)
      → challenge r ≡ none
      → is_valid_host r.host domain ip ≡ true
      → extract_token r.host r.path domain ≡ tok
      → tok ≢ []
      → db.faults ≡ []
      → IsWellFormed db
      → find_token tok db.tokens ≡ some t
      → serve_http challenge (http_server rt domain ip) r db ≡ (replied plain_ok, recorded t)
  serve_http-known challenge t none' valid extracted ne sound formed found =
      serve_http-token challenge none' valid extracted ne
      ∙ record_interaction-known t sound ne found (token_id-positive tok db t formed found)
          (find_http-fresh db formed)
      ∙ ap (λ d. (replied plain_ok, d)) (written-recorded t)

  -- A request to an accepted host that carries a token that is not stored, on a server whose
  -- database works, is answered 200 "ok" too, and no row is written: nothing changes but the number
  -- of times that the clock was read. The request is no ACME challenge that certmagic answers.
  pub serve_http-unknown :
      (challenge : HttpRequest → Option HttpReply)
      → challenge r ≡ none
      → is_valid_host r.host domain ip ≡ true
      → extract_token r.host r.path domain ≡ tok
      → tok ≢ []
      → db.faults ≡ []
      → find_token tok db.tokens ≡ none
      → serve_http challenge (http_server rt domain ip) r db ≡ (replied plain_ok, read_db)
  serve_http-unknown challenge none' valid extracted ne sound missing =
      serve_http-token challenge none' valid extracted ne ∙ record_interaction-unknown sound missing
