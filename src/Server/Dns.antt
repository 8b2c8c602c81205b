-- ===== src/Server/Dns.antt =====
-- The DNS server: `handleDNS` and `parseRemoteAddr` of internal/server/dns.go. The DNS library's
-- table of type names is an argument. What is logged is left out, and so is whether the reply is
-- sent.
use oastrix.Acme.TxtStore
use oastrix.Prelude.{
  pos, ℤ, ℕ, Str, bytes, Bool, true, false, not, ◌&&◌, ◌||◌, Option, none, some, List, [], ◌∷◌,
  ◌++◌, map, if◌then◌else◌, ◌==◌, str_eq, to_lower, has_suffix, trim_suffix,
}
use oastrix.Events.{
  DnsEvent, DnsDraft, InteractionDraft, DnsMsg, Question, DnsResponsePlan, Rr, a, ns, txt, soa,
  kind_dns,
}
use oastrix.Runtime.{Runtime}
use oastrix.Acme.TxtStore.{TxtStore, normalize_name}
use oastrix.Db.{Db, now}
use oastrix.Plugins.Interfaces.{Fault, panic, error}
use oastrix.Plugins.Pipeline.{Pipeline, Run, process_dns}
use oastrix.Server.Qname.{extract_token_from_qname}
use oastrix.Server.Http.{start}

pub record DnsServer : Type 0 where
  pub pipeline : Pipeline Db
  pub domain : Str
  pub public_ip : Str
  pub txt_store : Option TxtStore

pub data NetAddr : Type 0 where
  udp_addr : Str → ℤ → NetAddr
  tcp_addr : Str → ℤ → NetAddr
  other_addr : Str → NetAddr

unfoldable pub parse_remote_addr : NetAddr → Str × ℤ
parse_remote_addr (udp_addr ip port) = (ip, port)
parse_remote_addr (tcp_addr ip port) = (ip, port)
parse_remote_addr (other_addr text) = (text, pos 0)

abbrev pub protocol_of : NetAddr → Str
protocol_of (tcp_addr ip port) = bytes "tcp"
protocol_of _ = bytes "udp"

abbrev pub type_a : ℕ
type_a = 1

abbrev pub type_ns : ℕ
type_ns = 2

abbrev pub type_soa : ℕ
type_soa = 6

abbrev pub type_txt : ℕ
type_txt = 16

abbrev pub rcode_success : ℕ
rcode_success = 0

abbrev pub rcode_name_error : ℕ
rcode_name_error = 3

-- The part of the reply that the loop changes.
pub record Reply : Type 0 where
  pub rcode : ℕ
  pub answer : List Rr

abbrev pub answer_with : List Rr → Reply → Reply
answer_with rrs m = record m { answer = m.answer ++ rrs }

-- `net.ParseIP` of an address that it cannot parse is nil.
abbrev pub or_nil : Option Str → Str
or_nil none = []
or_nil (some ip) = ip

abbrev pub rd_of : Bool → ℕ
rd_of true = 1
rd_of false = 0

-- The name of a question, in lower case and with no dot at its end.
unfoldable pub qname_of : Question → Str
qname_of q = to_lower (trim_suffix q.name (bytes "."))

-- What answers a question without a token: the branches of the loop that `continue` before the
-- token is looked for. `none` goes on to the token.
unfoldable pub zone_answer : Runtime → DnsServer → Question → Option (List Rr)
zone_answer rt s q =
    let qname = qname_of q in
    let address = a q.name 300 (or_nil (rt.parse_ip s.public_ip)) ∷ [] in
    if q.qtype == type_soa && (str_eq qname s.domain || has_suffix qname (bytes "." ++ s.domain))
    then some (
        soa (s.domain ++ bytes ".") 300 (bytes "ns1." ++ (s.domain ++ bytes "."))
          (bytes "hostmaster." ++ (s.domain ++ bytes "."))
        ∷ [])
    else if q.qtype == type_ns && str_eq qname s.domain
    then some (ns q.name 300 (bytes "ns1." ++ (s.domain ++ bytes ".")) ∷ [])
    else if str_eq qname (bytes "ns1." ++ s.domain)
    then some (if q.qtype == type_a && not (str_eq s.public_ip []) then address else [])
    else if str_eq qname s.domain && (q.qtype == type_a && not (str_eq s.public_ip []))
    then some address
    else none

abbrev pub txt_rr : Str → Str → Rr
txt_rr name value = txt name 1 value

abbrev pub nonempty : List Rr → Option (List Rr)
nonempty [] = none
nonempty (rr ∷ rrs) = some (rr ∷ rrs)

unfoldable pub txt_answer : DnsServer → Question → Option (List Rr)
txt_answer s q = elim s.txt_store [
  | none ↦ none
  | some store ↦
      if q.qtype == type_txt
      then nonempty (map (txt_rr q.name) (TxtStore.get (normalize_name q.name) store))
      else none
]

unfoldable pub dns_draft_of : DnsMsg → Question → Str → DnsDraft
dns_draft_of r q protocol = record {
  qname = qname_of q;
  qtype = q.qtype;
  qclass = q.qclass;
  rd = rd_of r.recursion_desired;
  opcode = r.opcode;
  dns_id = r.id;
  protocol = protocol;
}

unfoldable pub draft_of : (ℕ → Str) → NetAddr → DnsMsg → Question → Str → ℕ → InteractionDraft
unfolding dns_draft_of parse_remote_addr
draft_of type_to_string addr r q token occurred = record {
  token_value = token;
  token_id = 0;
  kind = kind_dns;
  occurred_at = occurred;
  remote_ip = (parse_remote_addr addr).0;
  remote_port = (parse_remote_addr addr).1;
  tls = false;
  summary =
      type_to_string q.qtype ++ (bytes " " ++ (qname_of q ++ (bytes " " ++ protocol_of addr)));
  http = none;
  dns = some (dns_draft_of r q (protocol_of addr));
  attributes = [];
  drop = false;
}

unfoldable pub event_of : (ℕ → Str) → NetAddr → DnsMsg → Question → Str → ℕ → DnsEvent
unfolding draft_of
event_of type_to_string addr r q token occurred = record {
  event = record {
    draft = some (draft_of type_to_string addr r q token occurred);
    interaction_id = 0;
  };
  req = r;
  resp = some (record { rcode = rcode_success; answers = []; handled = false });
  extra = q.name;
}

-- The reply so far and the database, or `none` where the handler panicked.
abbrev pub Answering : Type 0
Answering = Option Reply × Db

abbrev pub add_plan : Option DnsResponsePlan → Reply → Option Reply
add_plan none m = none
add_plan (some resp) m = some (record { rcode = resp.rcode; answer = m.answer ++ resp.answers })

abbrev pub respond : Option Fault × Run Db DnsEvent → Reply → Answering
respond (none, run) m = (add_plan run.event.resp m, run.state)
respond (some (error e), run) m = (add_plan run.event.resp m, run.state)
respond (some panic, run) m = (none, run.state)

module _ (rt : Runtime) (type_to_string : ℕ → Str) (s : DnsServer) (addr : NetAddr)
    (r : DnsMsg) where
  -- From the token on.
  unfoldable pub token_question : Question → Reply → Db → Answering
  unfolding event_of
  token_question q m db =
      let token = extract_token_from_qname (qname_of q) s.domain in
      let db1 = (now db).1 in
      if str_eq token []
      then (some (record m { rcode = rcode_name_error }), db)
      else respond
          (process_dns s.pipeline
            (start (event_of type_to_string addr r q token (db.clock db.reads)) db1))
          m

  -- The body of the loop over the questions.
  unfoldable pub handle_question : Question → Reply → Db → Answering
  unfolding token_question zone_answer txt_answer
  handle_question q m db = elim (zone_answer rt s q) [
    | some rrs ↦ (some (answer_with rrs m), db)
    | none ↦ elim (txt_answer s q) [
      | some rrs ↦ (some (answer_with rrs m), db)
      | none ↦ token_question q m db
    ]
  ]

  unfoldable pub handle_questions : List Question → Reply → Db → Answering
  unfolding handle_question
  handle_questions [] m db = (some m, db)
  handle_questions (q ∷ qs) m db =
      let (m', db') = handle_question q m db in
      elim m' [ none ↦ (none, db') | some m1 ↦ handle_questions qs m1 db' ]

  unfoldable pub handle_dns : Db → Answering
  unfolding handle_questions
  handle_dns db = handle_questions r.question (record { rcode = rcode_success; answer = [] }) db
