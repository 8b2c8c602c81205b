-- ===== src/Server/Api/Handlers/Creation.antt =====
-- What the creation of a token stores, and where its payloads lead.
use oastrix.Prelude.{
  length, ℕ, suc, ◌≡◌, ◌≢◌, refl, ◌∙◌, ap, append_assoc, sym, Str, bytes, true, false, Option, none,
  some, [], ◌∷◌, ◌++◌, arith, lookup, str_eq, to_lower, has_suffix,
}
use oastrix.Token.{generate, token_length}
use oastrix.Token.Charset.{Lacks-of_label, generate-IsLabel}
use oastrix.Db.{Db}
use oastrix.Db.Tokens.{find_token, key_exists}
use oastrix.Db.Tokens.Laws.{token_row, create_token-cases}
use oastrix.Server.Host.{extract_token, host_name}
use oastrix.Server.Host.Split.{IsHostName}
use oastrix.Server.Host.Extract.{subdomain, oast, extract_token-subdomain, extract_token-path}
use oastrix.Server.Qname.{extract_token_from_qname}
use oastrix.Server.Qname.Laws.{extract_token_from_qname-first}
use oastrix.Server.Api.Types.{write_json, create_token_response}
use oastrix.Server.Api.Flow.{returned, next}
use oastrix.Server.Api.Handlers.{
  ApiServer, Decoded, decode_label, label_ptr, ip_payloads, payloads, handle_create_token,
}

-- Decoding reads no table.
pub decode_label-db :
    (body : Option (Decoded Str × Decoded (Unit {0}))) (db : Db) → (decode_label body db).1 ≡ db
unfolding decode_label
decode_label-db body db = ground arith

-- Where no statement fails, a request with a good body whose API key is stored, and a random value
-- that is not a token yet, is answered 200 with that value and its payloads, and one token is
-- stored: that value, owned by the API key, with the label of the body and a new ID. Nothing else
-- changes but the number of times that the clock was read.
pub handle_create_token-created :
    (s : ApiServer) (body : Option (Decoded Str × Decoded (Unit {0})))
    (random_bytes tok label : Str) (key : ℕ) (db : Db)
    → db.faults ≡ []
    → decode_label body db ≡ (next label, db)
    → generate (some random_bytes) ≡ some tok
    → find_token tok db.tokens ≡ none
    → key_exists (some key) db.api_keys ≡ true
    → handle_create_token s body (some random_bytes) key db ≡ (
      returned (write_json 200 (create_token_response tok (payloads s tok))),
      record db {
        reads = suc db.reads;
        tokens = token_row tok (some key) (label_ptr label) db ∷ db.tokens;
        last_token = suc db.last_token;
      },
    )
unfolding handle_create_token
handle_create_token-created s body random_bytes tok label key db sound decoded made new owned =
    rw
      (
        decoded,
        handle_create_token,
        made,
        create_token-cases tok (some key) (label_ptr label) db sound,
      )
      (ground arith)

ip_payload :
    (ip tok : Str)
    → ip ≢ []
    → lookup (bytes "http_ip") (ip_payloads ip tok)
      ≡ some (bytes "http://" ++ (ip ++ (oast ++ tok)))
unfolding lookup str_eq
ip_payload [] tok ne = absurd (ne refl)
ip_payload (c ∷ ip) tok ne = refl

-- The names in the payloads.
payload_names :
    (s : ApiServer) (tok : Str)
    → s.public_ip ≢ []
    → let name = subdomain tok s.domain in
      (lookup (bytes "dns") (payloads s tok) ≡ some name)
      × (lookup (bytes "http") (payloads s tok) ≡ some (bytes "http://" ++ (name ++ bytes "/")))
      × (lookup (bytes "https") (payloads s tok) ≡ some (bytes "https://" ++ (name ++ bytes "/")))
      × (lookup (bytes "http_ip") (payloads s tok)
          ≡ some (bytes "http://" ++ (s.public_ip ++ (oast ++ tok))))
unfolding payloads lookup str_eq
payload_names s tok addressed =
    let assoc = sym (append_assoc tok (b'.' ∷ s.domain) (bytes "/")) in
    (
      refl,
      ap (λ n. some (bytes "http://" ++ n)) assoc,
      ap (λ n. some (bytes "https://" ++ n)) assoc,
      ip_payload s.public_ip tok addressed,
    )

-- The payloads of a token that was generated from twelve bytes lead back to it: the name of the
-- "dns" payload carries it for the DNS server, the same name as the host of the "http" and "https"
-- payloads carries it for the HTTP server, and so does the path of the "http_ip" payload at the
-- public address. The domain is lower-case, with no colon or bracket, and the public address is not
-- empty and not a name below the domain.
pub payloads_lead_back :
    (s : ApiServer) (random_bytes tok path : Str)
    → length random_bytes ≡ token_length
    → generate (some random_bytes) ≡ some tok
    → IsHostName s.domain
    → to_lower s.domain ≡ s.domain
    → s.public_ip ≢ []
    → has_suffix (host_name s.public_ip) (b'.' ∷ s.domain) ≡ false
    → let name = subdomain tok s.domain in
      (lookup (bytes "dns") (payloads s tok) ≡ some name)
      × (extract_token_from_qname name s.domain ≡ tok)
      × (lookup (bytes "http") (payloads s tok) ≡ some (bytes "http://" ++ (name ++ bytes "/")))
      × (lookup (bytes "https") (payloads s tok) ≡ some (bytes "https://" ++ (name ++ bytes "/")))
      × (extract_token name path s.domain ≡ tok)
      × (lookup (bytes "http_ip") (payloads s tok)
          ≡ some (bytes "http://" ++ (s.public_ip ++ (oast ++ tok))))
      × (extract_token s.public_ip (oast ++ tok) s.domain ≡ tok)
payloads_lead_back s random_bytes tok path len made hd low addressed apart =
    let label = (generate-IsLabel random_bytes tok len made).1 in
    let (dns, http, https, http_ip) = payload_names s tok addressed in
    (
      dns,
      ap (λ d. extract_token_from_qname (subdomain tok d) s.domain) (sym low)
          ∙ (extract_token_from_qname-first tok [] s.domain
              (Lacks-of_label b'.' tok (λ e. cc) label.1)).0,
      http,
      https,
      (extract_token-subdomain tok s.domain [] [] path label hd tt tt).0,
      http_ip,
      (extract_token-path s.public_ip s.domain tok [] apart
          (Lacks-of_label b'/' tok (λ e. cc) label.1)).0,
    )
