-- ===== src/Cmd/Server/ReadBack.antt =====
-- From a request or a query to the answer of the API to the owner of the token.
use oastrix.Cmd.Server.DnsRecording
use oastrix.Server.Dns
use oastrix.Prelude.{
  to_lower, trim_suffix, ℕ, suc, ◌≡◌, ◌≢◌, refl, sym, subst, ap, Str, bytes, ◌++◌, Bool, true,
  false, Option, none, some, List, [], map, arith, ◌==◌, not, if◌then◌else◌, str_eq,
}
use oastrix.Models.{Token, InteractionRow}
use oastrix.Events.{Headers, HttpRequest, DnsMsg, Question, kind_http, kind_dns}
use oastrix.Runtime.{Runtime}
use oastrix.Db.{Db}
use oastrix.Db.Tokens.{find_token, owned_by}
use oastrix.Db.Interactions.{
  scan_interaction, select_interactions, find_http, find_dns, get_http_interaction,
  get_dns_interaction,
}
use oastrix.Db.Integrity.{IsWellFormed}
use oastrix.Server.Host.{split_host_port, is_valid_host, extract_token}
use oastrix.Server.Http.{HttpReply, Served, serve_http, draft_of}
use oastrix.Server.Api.Types.{InteractionResponse, write_json, get_interactions_response}
use oastrix.Server.Api.Flow.{returned}
use oastrix.Server.Api.Handlers.{
  or_no_headers, interaction_response, read_http, read_dns, handle_get_interactions,
}
use oastrix.Server.Api.Handlers.Listing.{
  Within, handle_get_interactions-owned, select_interactions-Within, shown-Within,
}
use oastrix.Cmd.Server.HttpRecording.{http_server, recorded, row, client_at, serve_http-known}
use oastrix.Cmd.Server.Peer.{peer, peer_protocol}
use oastrix.Cmd.Server.DnsRecording.{dns_server, handle_question-known}
use oastrix.Server.Qname.{extract_token_from_qname}
use oastrix.Server.Dns.{
  NetAddr, Reply, Answering, parse_remote_addr, protocol_of, dns_draft_of, rd_of, qname_of,
  txt_answer, type_soa, handle_question,
}
use oastrix.Acme.TxtStore.{TxtStore}

bit : (b : Bool) → not ((if b then 1 else 0) == 0) ≡ b
bit true = refl
bit false = refl

-- The headers that JSON gives, or none where it gives an error.
abbrev read_back : Option Headers → Headers
read_back none = []
read_back (some headers) = headers

or_no_headers-read_back : (o : Option Headers) → or_no_headers o ≡ read_back o
or_no_headers-read_back none = refl
or_no_headers-read_back (some headers) = refl

module _ (rt : Runtime) (domain ip : Str) (r : HttpRequest) (tok : Str) (db : Db) where
  -- What the API shows of the request, each field written out.
  abbrev pub shown : InteractionResponse
  shown = record {
    id = suc db.last_interaction;
    kind = kind_http;
    occurred_at = rt.format_time (db.clock (suc db.reads));
    remote_ip = (client_at r.remote_addr (split_host_port r.remote_addr)).0;
    remote_port = (client_at r.remote_addr (split_host_port r.remote_addr)).1;
    tls = r.tls;
    summary = r.method ++ (bytes " " ++ (r.path ++ (bytes " " ++ r.proto)));
    http = some (record {
      method = r.method;
      scheme = if r.tls then bytes "https" else bytes "http";
      host = r.host;
      path = r.path;
      query = r.raw_query;
      headers = read_back (rt.unmarshal_headers (rt.marshal_headers r.header));
      body = rt.base64 (elim r.body [ none ↦ [] | some body ↦ body ]);
    });
    dns = none;
  }

  shown-row :
      (t : Token)
      → db.faults ≡ []
      → (interaction_response rt
          (scan_interaction (row rt domain ip r tok db t))
          (recorded rt domain ip r tok db t)).0
        ≡ shown
  unfolding interaction_response read_http read_dns get_http_interaction find_http draft_of str_eq
  shown-row t sound =
      rw (or_no_headers-read_back (rt.unmarshal_headers (rt.marshal_headers r.header)))
        (ground (arith, bit r.tls))

  -- The request stands in the list of what the API shows of the token.
  pub recorded-Within :
      (t : Token)
      → db.faults ≡ []
      → let after = recorded rt domain ip r tok db t in
        Within shown
          (map (λ i. (interaction_response rt i after).0) (select_interactions t.id after))
  recorded-Within t sound =
      let after = recorded rt domain ip r tok db t in
      let selected =
        select_interactions-Within (row rt domain ip r tok db t) db.interactions after refl in
      subst
        (λ x.
          Within x
            (map (λ i. (interaction_response rt i after).0) (select_interactions t.id after)))
        (shown-row t sound)
        (shown-Within rt (scan_interaction (row rt domain ip r tok db t)) t.id after selected)

  -- On a server whose database works and has its referential integrity, after a request to an
  -- accepted host that carries a stored token, the owner of the token that asks the API for its
  -- interactions is answered 200 with a list in which that request stands, with the client's address
  -- and port, the time at which its row was written and the summary, and with the method, scheme,
  -- host, path and query as they were received, the body in base64 and the headers as JSON writes
  -- and reads them. The request is no ACME challenge that certmagic
  -- answers.
  pub serve_http-shown :
      (challenge : HttpRequest → Option HttpReply) (t : Token) (key : ℕ)
      → challenge r ≡ none
      → is_valid_host r.host domain ip ≡ true
      → extract_token r.host r.path domain ≡ tok
      → tok ≢ []
      → db.faults ≡ []
      → IsWellFormed db
      → find_token tok db.tokens ≡ some t
      → owned_by key t ≡ true
      → let db' = (serve_http challenge (http_server rt domain ip) r db).1 in
        (irs : List InteractionResponse) × (handle_get_interactions rt tok key db'
          ≡ (returned (write_json 200 (get_interactions_response tok irs)), db'))
        × Within shown irs
  serve_http-shown challenge t key none' valid extracted ne sound formed found mine =
      let done =
        serve_http-known rt domain ip r tok db challenge t none' valid extracted ne sound formed
          found in
      let after = recorded rt domain ip r tok db t in
      subst
        (λ db'.
          (irs : List InteractionResponse) × (handle_get_interactions rt tok key db'
            ≡ (returned (write_json 200 (get_interactions_response tok irs)), db'))
          × Within shown irs)
        (sym (ap (λ (m : Served × Db). m.1) done))
        (
          map (λ i. (interaction_response rt i after).0) (select_interactions t.id after),
          handle_get_interactions-owned rt tok key after t sound ne found mine,
          recorded-Within t sound,
        )

module _ (rt : Runtime) (type_to_string : ℕ → Str) (domain ip : Str) (store : Option TxtStore)
    (addr : NetAddr) (msg : DnsMsg) (q : Question) (tok : Str) (db : Db) where
  abbrev after_query : Token → Db
  after_query = DnsRecording.recorded rt type_to_string domain ip store addr msg q tok db

  abbrev query_row : Token → InteractionRow
  query_row t = DnsRecording.row rt type_to_string domain ip store addr msg q tok db t

  -- What the API shows of the query.
  abbrev pub shown_query : InteractionResponse
  shown_query = record {
    id = suc db.last_interaction;
    kind = kind_dns;
    occurred_at = rt.format_time (db.clock (suc db.reads));
    remote_ip = (peer addr).0;
    remote_port = (peer addr).1;
    tls = false;
    summary =
        type_to_string q.qtype
        ++ (bytes " "
            ++ (to_lower (trim_suffix q.name (bytes ".")) ++ (bytes " " ++ peer_protocol addr)));
    http = none;
    dns = some (record {
      qname = to_lower (trim_suffix q.name (bytes "."));
      qtype = q.qtype;
      qclass = q.qclass;
      rd = msg.recursion_desired;
      opcode = msg.opcode;
      dns_id = msg.id;
      protocol = peer_protocol addr;
    });
  }

  shown_query-row :
      (t : Token)
      → db.faults ≡ []
      → (interaction_response rt (scan_interaction (query_row t)) (after_query t)).0 ≡ shown_query
  unfolding interaction_response read_http read_dns get_dns_interaction find_dns Dns.draft_of
      dns_draft_of str_eq
  shown_query-row t sound = ground (arith, bit msg.recursion_desired)

  -- On a server whose database works and has its referential integrity, after a query for a name
  -- that carries a stored token, the owner of the token that asks the API for its interactions is
  -- answered 200 with a list in which that query stands, with the address and the time at which its
  -- row was written, and with its name in lower case, type, class, flags and protocol. The query is
  -- not for SOA records, for the domain itself or for its name server, and no published TXT record
  -- answers it.
  pub handle_question-shown :
      (m : Reply) (t : Token) (key : ℕ)
      → q.qtype ≢ type_soa
      → qname_of q ≢ domain
      → qname_of q ≢ bytes "ns1." ++ domain
      → txt_answer (dns_server rt domain ip store) q ≡ none
      → extract_token_from_qname (qname_of q) domain ≡ tok
      → tok ≢ []
      → db.faults ≡ []
      → IsWellFormed db
      → find_token tok db.tokens ≡ some t
      → owned_by key t ≡ true
      → let db' =
          (handle_question rt type_to_string (dns_server rt domain ip store) addr msg q m db).1 in
        (irs : List InteractionResponse) × (handle_get_interactions rt tok key db'
          ≡ (returned (write_json 200 (get_interactions_response tok irs)), db'))
        × Within shown_query irs
  handle_question-shown m t key other apart below unpublished extracted ne sound formed found mine =
      let done =
        handle_question-known rt type_to_string domain ip store addr msg q tok db m t other apart
          below unpublished extracted ne sound formed found in
      let after = after_query t in
      let all = map (λ i. (interaction_response rt i after).0) (select_interactions t.id after) in
      let selected = select_interactions-Within (query_row t) db.interactions after refl in
      subst
        (λ db'.
          (irs : List InteractionResponse) × (handle_get_interactions rt tok key db'
            ≡ (returned (write_json 200 (get_interactions_response tok irs)), db'))
          × Within shown_query irs)
        (sym (ap (λ (a : Answering). a.1) done))
        (
          all,
          handle_get_interactions-owned rt tok key after t sound ne found mine,
          subst (λ x. Within x all) (shown_query-row t sound)
              (shown-Within rt (scan_interaction (query_row t)) t.id after selected),
        )
