-- ===== src/Client/Seen.antt =====
-- From a request to the HTTP server to what a client of the API reads of it.
use oastrix.Plugins.Interfaces
use oastrix.Prelude.{
  ℕ, ◌≡◌, ◌≢◌, refl, sym, subst, ap, Str, bytes, ◌++◌, true, Option, none, some, List, [], map,
}
use oastrix.Models.{Token}
use oastrix.Events.{HttpRequest}
use oastrix.Runtime.{Runtime}
use oastrix.Db.{Db}
use oastrix.Db.Tokens.{find_token, owned_by}
use oastrix.Db.Interactions.{select_interactions}
use oastrix.Db.Integrity.{IsWellFormed}
use oastrix.Server.Host.{is_valid_host, extract_token}
use oastrix.Server.Http.{HttpReply, Served, serve_http}
use oastrix.Server.Api.Types.{InteractionResponse, Body, get_interactions_response}
use oastrix.Server.Api.Access.{bearer}
use oastrix.Server.Api.Access.Auth.{Grants}
use oastrix.Server.Api.Handlers.{ApiServer, interaction_response}
use oastrix.Server.Api.Handlers.Listing.{Within}
use oastrix.Server.Api.Routes.{Route}
use oastrix.Client.{Request, Client, Codec, done, token_url, interactions_request, get_interactions}
use oastrix.Client.Served.{served, get_interactions-served}
use oastrix.Cmd.Server.HttpRecording.{http_server, recorded, serve_http-known}
use oastrix.Cmd.Server.ReadBack.{shown, recorded-Within}

-- Who is let in depends on the stored API keys alone.
Grants-kept :
    (sha256 : Str → Str) (before after : Db) (h : Str) (key : ℕ)
    → after.api_keys ≡ before.api_keys
    → Grants sha256 before h key
    → Grants sha256 after h key
Grants-kept sha256 before after h key same g = record {
  prefix = g.prefix;
  secret = g.secret;
  key = g.key;
  header = g.header;
  form = g.form;
  stored = rw same (g.stored);
  active = g.active;
  hashed = g.hashed;
  numbered = g.numbered;
}

module _ (rt : Runtime) (s : ApiServer) (plugins : Option (List Interfaces.PluginInfo))
    (routed : Request → Route) (encode_body : Body → Str) (json : Codec) (c : Client Db)
    (domain ip : Str) (r : HttpRequest) (tok : Str) (db : Db) where
  -- What the API lists for the token after the request.
  abbrev pub listing : Token → List InteractionResponse
  listing t =
      let after = recorded rt domain ip r tok db t in
      map (λ i. (interaction_response rt i after).0) (select_interactions t.id after)

  -- On a server whose database works and has its referential integrity, after a request to an
  -- accepted host that carries a stored token, and that is no ACME challenge that certmagic answers,
  -- a client with a key that is let in and owns the token, and that asks for its interactions, gets
  -- a list in which that request stands, with the client's address and port, the time at which its
  -- row was written, the summary, the method, scheme, host, path and query as they were received, the
  -- body in base64 and the headers as JSON writes and reads them; and asking changes nothing. The URL is one, the multiplexer takes the request
  -- to the interactions of that token, and JSON carries the response.
  pub get_interactions-recorded :
      (challenge : HttpRequest → Option HttpReply) (t : Token) (key : ℕ)
      → challenge r ≡ none
      → is_valid_host r.host domain ip ≡ true
      → extract_token r.host r.path domain ≡ tok
      → tok ≢ []
      → db.faults ≡ []
      → IsWellFormed db
      → find_token tok db.tokens ≡ some t
      → owned_by key t ≡ true
      → Grants rt.sha256 db (bearer ++ c.api_key) key
      → c.http_client ≡ served rt s plugins routed encode_body
      → json.valid_url (token_url c tok ++ bytes "/interactions") ≡ true
      → routed (interactions_request c tok) ≡ Route.get_interactions tok
      → json.decode_interactions (some (encode_body (get_interactions_response tok (listing t))))
        ≡ some (record { token = tok; interactions = listing t })
      → let db' = (serve_http challenge (http_server rt domain ip) r db).1 in
        (irs : List InteractionResponse) × (get_interactions json c tok db'
          ≡ (done (record { token = tok; interactions = irs }), db'))
        × Within (shown rt domain ip r tok db) irs
  get_interactions-recorded challenge t key none' valid extracted ne sound formed found mine grants
        direct url matched read =
      let recorded_once =
        serve_http-known rt domain ip r tok db challenge t none' valid extracted ne sound formed
          found in
      let after = recorded rt domain ip r tok db t in
      subst
        (λ db'.
          (irs : List InteractionResponse) × (get_interactions json c tok db'
            ≡ (done (record { token = tok; interactions = irs }), db'))
          × Within (shown rt domain ip r tok db) irs)
        (sym (ap (λ (m : Served × Db). m.1) recorded_once))
        (
          listing t,
          get_interactions-served rt s plugins routed encode_body json c key after direct sound
              (Grants-kept rt.sha256 db after (bearer ++ c.api_key) key refl grants) tok t url
              matched ne found mine read,
          recorded-Within rt domain ip r tok db t sound,
        )
