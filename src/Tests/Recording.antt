-- ===== src/Tests/Recording.antt =====
-- An HTTP request and a DNS query that carry the stored token, and a request that carries another.
use oastrix.Cmd.Server.HttpRecording
use oastrix.Cmd.Server.DnsRecording
use oastrix.Prelude.{
  atoi, pos, negsuc, digits_value, decimal, false, ℕ, ◌≡◌, ◌≢◌, refl, Str, bytes, true, none, some,
  List, [], ◌++◌, index_byte, last_index_byte, has_prefix, trim_prefix, has_suffix, trim_suffix,
  trim, str_eq, to_lower, lower_byte, split,
}
use oastrix.Db.Tokens.{find_token}
use oastrix.Server.Host.{
  is_valid_host, extract_token, split_host_port, host_name, host_token, path_token,
}
use oastrix.Server.Qname.{extract_token_from_qname}
use oastrix.Server.Http.{serve_http, replied, plain_ok}
use oastrix.Server.Dns.{handle_question, qname_of, txt_answer, Reply, rcode_success}
use oastrix.Server.Api.Types.{InteractionResponse, write_json, get_interactions_response}
use oastrix.Server.Api.Flow.{returned}
use oastrix.Server.Api.Handlers.{handle_get_interactions}
use oastrix.Server.Api.Handlers.Listing.{Within}
use oastrix.Cmd.Server.ReadBack.{shown, shown_query, serve_http-shown, handle_question-shown}
use oastrix.Cmd.Server.HttpRecording.{client_at, http_server, serve_http-known, serve_http-unknown}
use oastrix.Cmd.Server.DnsRecording.{
  dns_server, answered, handle_question-known, handle_question-unknown,
}
use oastrix.Tests.Data.{
  valid_host, carried, differ, client, rt, domain, ip, tok, other, token_row, db, db-IsWellFormed,
  request, host, other_host, question, message,
}

valid_other_host : is_valid_host other_host domain ip ≡ true
unfolding is_valid_host host_name split_host_port index_byte last_index_byte has_suffix trim str_eq
valid_other_host = refl

other_carried : extract_token other_host (bytes "/probe") domain ≡ other
unfolding extract_token host_name split_host_port host_token path_token index_byte last_index_byte
    has_prefix trim_prefix has_suffix trim_suffix trim str_eq
other_carried = refl

stored : find_token tok db.tokens ≡ some token_row
unfolding find_token str_eq
stored = refl

missing : find_token other db.tokens ≡ none
unfolding find_token str_eq
missing = refl

-- What `Atoi` reads of ports, and of texts that no address of net/http holds.
ports :
    (atoi (bytes "4711") ≡ (pos 4711, true))
    × (atoi (bytes "+5") ≡ (pos 5, true))
    × (atoi (bytes "-5") ≡ (negsuc 4, true))
    × (atoi (bytes "5x") ≡ (pos 0, false))
unfolding atoi digits_value decimal
ports = (refl, refl, refl, refl)

client_read :
    client_at (request host).remote_addr (split_host_port (request host).remote_addr)
    ≡ (bytes "198.51.100.7", pos 4711)
unfolding atoi digits_value decimal split_host_port index_byte last_index_byte
client_read = refl

serve_http-known_example :
    serve_http (λ r. none) (http_server rt domain ip) (request host) db
    ≡ (replied plain_ok, HttpRecording.recorded rt domain ip (request host) tok db token_row)
serve_http-known_example =
    serve_http-known rt domain ip (request host) tok db (λ r. none) token_row refl valid_host
      carried (λ e. cc) refl db-IsWellFormed stored

serve_http-unknown_example :
    serve_http (λ r. none) (http_server rt domain ip) (request other_host) db
    ≡ (replied plain_ok, HttpRecording.read_db rt domain ip (request other_host) other db)
serve_http-unknown_example =
    serve_http-unknown rt domain ip (request other_host) other db (λ r. none) refl valid_other_host
      other_carried (λ e. cc) refl missing

abbrev qname : Str
qname = bytes "ABC123abc123.oast.example."

abbrev type_name : ℕ → Str
type_name t = bytes "A"

abbrev empty_reply : Reply
empty_reply = record { rcode = rcode_success; answer = [] }

asked : extract_token_from_qname (qname_of (question qname)) domain ≡ tok
unfolding extract_token_from_qname qname_of to_lower lower_byte has_suffix trim_suffix str_eq split
asked = refl

apart : qname_of (question qname) ≢ domain
unfolding qname_of to_lower lower_byte trim_suffix has_suffix str_eq
apart = differ (qname_of (question qname)) domain refl

below : qname_of (question qname) ≢ bytes "ns1." ++ domain
unfolding qname_of to_lower lower_byte trim_suffix has_suffix str_eq
below = differ (qname_of (question qname)) (bytes "ns1." ++ domain) refl

unpublished : txt_answer (dns_server rt domain ip none) (question qname) ≡ none
unfolding txt_answer
unpublished = refl

handle_question-known_example :
    handle_question rt type_name
      (dns_server rt domain ip none)
      client
      message
      (question qname)
      empty_reply
      db
    ≡ (
      some
          (answered rt type_name domain ip none client message (question qname) tok db empty_reply),
      DnsRecording.recorded rt type_name domain ip none client message
          (question qname)
          tok
          db
          token_row,
    )
handle_question-known_example =
    handle_question-known rt type_name domain ip none client message (question qname) tok db
      empty_reply token_row (λ e. cc) apart below unpublished asked (λ e. cc) refl db-IsWellFormed
      stored

serve_http-shown_example :
    let db' = (serve_http (λ r. none) (http_server rt domain ip) (request host) db).1 in
    (irs : List InteractionResponse) × (handle_get_interactions rt tok 1 db'
      ≡ (returned (write_json 200 (get_interactions_response tok irs)), db'))
    × Within (shown rt domain ip (request host) tok db) irs
serve_http-shown_example =
    serve_http-shown rt domain ip (request host) tok db (λ r. none) token_row 1 refl valid_host
      carried (λ e. cc) refl db-IsWellFormed stored refl

handle_question-shown_example :
    let db' =
      (handle_question rt type_name
        (dns_server rt domain ip none)
        client
        message
        (question qname)
        empty_reply
        db).1 in
    (irs : List InteractionResponse) × (handle_get_interactions rt tok 1 db'
      ≡ (returned (write_json 200 (get_interactions_response tok irs)), db'))
    × Within (shown_query rt type_name domain ip none client message (question qname) tok db) irs
handle_question-shown_example =
    handle_question-shown rt type_name domain ip none client message (question qname) tok db
      empty_reply token_row 1 (λ e. cc) apart below unpublished asked (λ e. cc) refl db-IsWellFormed
      stored refl
