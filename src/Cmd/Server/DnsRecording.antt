-- ===== src/Cmd/Server/DnsRecording.antt =====
-- A DNS query from the listener to the database, through the pipeline that `runServer` builds.
use oastrix.Plugins.Core.Storage.Rows.{
  on_pre_store-unknown, on_pre_store-known, create_interaction-dns, with_row, with_token,
  find_token-token_exists,
}
use oastrix.Prelude.{
  ap, ◌∙◌, ◌&&◌, to_lower, trim_suffix, has_suffix, str_eq, ℕ, suc, ◌≡◌, ◌≢◌, refl, Str, not,
  Option, none, some, List, [], ◌∷◌, ◌++◌, arith, ◌==◌, if◌then◌else◌, str_eq_iff, bytes,
}
use oastrix.Models.{Token, InteractionRow, DnsInteraction}
use oastrix.Events.{InteractionDraft, DnsMsg, Question, Rr, a}
use oastrix.Runtime.{Runtime}
use oastrix.Acme.TxtStore.{TxtStore}
use oastrix.Db.{Db}
use oastrix.Db.Tokens.{find_token}
use oastrix.Db.Integrity.{IsWellFormed}
use oastrix.Db.Integrity.Facts.{token_id-positive, find_dns-fresh}
use oastrix.Db.Interactions.{find_dns}
use oastrix.Plugins.Pipeline.{process_dns, run_event_hooks, run_response_hooks, store_step}
use oastrix.Plugins.Core.Storage.{dns_row, create_interaction}
use oastrix.Plugins.Core.DefaultResponse.{on_dns_response, public_ip_or_loopback, fully_qualified}
use oastrix.Server.Qname.{extract_token_from_qname}
use oastrix.Server.Dns.{
  zone_answer, txt_answer, type_soa, handle_question, DnsServer, NetAddr, Reply, token_question,
  qname_of, draft_of, dns_draft_of, protocol_of, rcode_success, type_a,
}
use oastrix.Cmd.Server.{server_pipeline}
use oastrix.Cmd.Server.Peer.{
  peer, peer_protocol, server_address, parse_remote_addr-peer, protocol_of-peer, rd_of-if,
  public_ip_or_loopback-address,
}

abbrev pub dns_server : Runtime → Str → Str → Option TxtStore → DnsServer
dns_server rt domain ip store = record {
  pipeline = server_pipeline rt ip;
  domain = domain;
  public_ip = ip;
  txt_store = store;
}

-- What the default plugin answers: an A record for a query of type A, nothing for another.
abbrev default_answers : Runtime → Str → Question → List Rr
default_answers rt ip q =
    if not (q.qtype == type_a)
    then []
    else a (fully_qualified (qname_of q)) 300 (public_ip_or_loopback (rt.parse_ip ip)) ∷ []

module _ (rt : Runtime) (type_to_string : ℕ → Str) (domain ip : Str) (store : Option TxtStore)
    (addr : NetAddr) (r : DnsMsg) (q : Question) (tok : Str) (db : Db) where
  abbrev pub read_db : Db
  read_db = record db { reads = suc db.reads }

  abbrev draft : InteractionDraft
  draft = draft_of type_to_string addr r q tok (db.clock db.reads)

  -- The database after the query, as the storage plugin writes it.
  abbrev written : Token → Db
  written t = record (with_row (with_token draft t.id) read_db) {
    dns_interactions =
        dns_row (suc db.last_interaction) (dns_draft_of r q (protocol_of addr))
        ∷ db.dns_interactions;
  }

  abbrev pub s : DnsServer
  s = dns_server rt domain ip store

  abbrev default_reply : Reply → Reply
  default_reply m = record { rcode = rcode_success; answer = m.answer ++ default_answers rt ip q }

  token_question-known :
      (m : Reply) (t : Token)
      → extract_token_from_qname (qname_of q) domain ≡ tok
      → tok ≢ []
      → db.faults ≡ []
      → find_token tok db.tokens ≡ some t
      → t.id ≢ 0
      → find_dns (suc db.last_interaction) db.dns_interactions ≡ none
      → token_question rt type_to_string s addr r q m db ≡ (some (default_reply m), written t)
  unfolding token_question server_pipeline process_dns run_event_hooks store_step run_response_hooks
      on_dns_response
  token_question-known m t extracted ne sound found nonzero free =
      rw
        (
          extracted,
          on_pre_store-known draft 0 read_db t sound refl ne found,
          create_interaction-dns rt (with_token draft t.id) (dns_draft_of r q (protocol_of addr))
              read_db sound nonzero (find_token-token_exists tok db.tokens t found) refl refl free,
        )
        (ground (arith, str_eq_iff tok []))

  token_question-unknown :
      (m : Reply)
      → extract_token_from_qname (qname_of q) domain ≡ tok
      → tok ≢ []
      → db.faults ≡ []
      → find_token tok db.tokens ≡ none
      → token_question rt type_to_string s addr r q m db ≡ (some (default_reply m), read_db)
  unfolding token_question server_pipeline process_dns run_event_hooks store_step run_response_hooks
      on_dns_response create_interaction
  token_question-unknown m extracted ne sound missing =
      rw (extracted, on_pre_store-unknown draft 0 read_db sound missing)
        (ground (arith, str_eq_iff tok []))

  zone_answer-none :
      q.qtype ≢ type_soa
      → qname_of q ≢ domain
      → qname_of q ≢ bytes "ns1." ++ domain
      → zone_answer rt s q ≡ none
  unfolding zone_answer
  zone_answer-none other apart below =
      ground
        (arith, str_eq_iff (qname_of q) domain, str_eq_iff (qname_of q) (bytes "ns1." ++ domain))

  -- The name of the query, in lower case and without a dot at its end.
  abbrev pub asked_name : Str
  asked_name = to_lower (trim_suffix q.name (bytes "."))

  -- The row of the interaction, and that of its details.
  abbrev pub row : Token → InteractionRow
  row t = record {
    id = suc db.last_interaction;
    token_id = t.id;
    kind = bytes "dns";
    occurred_at = db.clock (suc db.reads);
    remote_ip = (peer addr).0;
    remote_port = (peer addr).1;
    tls = 0;
    summary =
        type_to_string q.qtype ++ (bytes " " ++ (asked_name ++ (bytes " " ++ peer_protocol addr)));
  }

  abbrev pub details : DnsInteraction
  details = record {
    interaction_id = suc db.last_interaction;
    qname = asked_name;
    qtype = q.qtype;
    qclass = q.qclass;
    rd = if r.recursion_desired then 1 else 0;
    opcode = r.opcode;
    dns_id = r.id;
    protocol = peer_protocol addr;
  }

  -- What a query for the token `t` leaves: one row more, for that token, one row of details under its
  -- ID, and a clock that was read twice.
  abbrev pub recorded : Token → Db
  recorded t = record db {
    reads = suc (suc db.reads);
    last_interaction = suc db.last_interaction;
    interactions = row t ∷ db.interactions;
    dns_interactions = details ∷ db.dns_interactions;
  }

  -- The reply after the question: success, and an A record for a query of type A, with the name, to
  -- which a dot is added where it has none, 300 seconds and the address of the server.
  abbrev pub answered : Reply → Reply
  answered m = record {
    rcode = 0;
    answer =
        m.answer
        ++ (if q.qtype == 1
            then a
                (if not (str_eq asked_name []) && not (has_suffix asked_name (bytes "."))
                  then asked_name ++ bytes "."
                  else asked_name)
                300 (server_address (rt.parse_ip ip))
              ∷ []
            else []);
  }

  default_reply-answered : (m : Reply) → default_reply m ≡ answered m
  unfolding fully_qualified qname_of
  default_reply-answered m = rw (public_ip_or_loopback-address (rt.parse_ip ip)) (ground arith)

  written-recorded : (t : Token) → written t ≡ recorded t
  unfolding draft_of dns_draft_of qname_of
  written-recorded t =
      rw (parse_remote_addr-peer addr, protocol_of-peer addr, rd_of-if r.recursion_desired) refl

  -- A query for a name that carries a stored token, on a server whose database works and has its
  -- referential integrity, records exactly one interaction for that token, a row with the client's
  -- address and port and the summary, and a row of its DNS details under the same ID, with the name,
  -- type, class, flag, opcode, ID and protocol of the query, each column written out, and nothing
  -- else changes but the number of times that the clock was read. It is answered with success: if it
  -- asks for an A record, with the server's address, or the loopback address where the configured
  -- one cannot be read, and with no record otherwise. The query is not for SOA records, for the
  -- domain itself or for its name server, and no published TXT record answers it.
  pub handle_question-known :
      (m : Reply) (t : Token)
      → q.qtype ≢ type_soa
      → qname_of q ≢ domain
      → qname_of q ≢ bytes "ns1." ++ domain
      → txt_answer s q ≡ none
      → extract_token_from_qname (qname_of q) domain ≡ tok
      → tok ≢ []
      → db.faults ≡ []
      → IsWellFormed db
      → find_token tok db.tokens ≡ some t
      → handle_question rt type_to_string s addr r q m db ≡ (some (answered m), recorded t)
  unfolding handle_question
  handle_question-known m t other apart below unpublished extracted ne sound formed found =
      rw (zone_answer-none other apart below, handle_question, unpublished)
        (token_question-known m t extracted ne sound found (token_id-positive tok db t formed found)
          (find_dns-fresh db formed))
      ∙ (λ i. (some (default_reply-answered m i), written-recorded t i))

  -- A query for a name that carries a token that is not stored, on a server whose database works,
  -- is answered with success too, with the server's address if it asks for an A record and with no
  -- record otherwise, and no row is written: nothing changes but the number of times that the clock
  -- was read. The query is not for SOA records, for the domain itself or for its name server, and
  -- no published TXT record answers it.
  pub handle_question-unknown :
      (m : Reply)
      → q.qtype ≢ type_soa
      → qname_of q ≢ domain
      → qname_of q ≢ bytes "ns1." ++ domain
      → txt_answer s q ≡ none
      → extract_token_from_qname (qname_of q) domain ≡ tok
      → tok ≢ []
      → db.faults ≡ []
      → find_token tok db.tokens ≡ none
      → handle_question rt type_to_string s addr r q m db ≡ (some (answered m), read_db)
  unfolding handle_question
  handle_question-unknown m other apart below unpublished extracted ne sound missing =
      rw (zone_answer-none other apart below, handle_question, unpublished)
        (token_question-unknown m extracted ne sound missing)
      ∙ ap (λ a'. (some a', read_db)) (default_reply-answered m)
