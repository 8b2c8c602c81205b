-- ===== src/Tests/Challenges.antt =====
-- Challenges that are published, asked for and withdrawn.
use oastrix.Prelude.{
  lower_byte, ◌≡◌, refl, Str, bytes, true, false, ◌||◌, [], ◌∷◌, List, lookup, contains, ℕ, ◌≢◌,
  ◌++◌, map, some, to_lower, trim_suffix, has_suffix, str_eq,
}
use oastrix.Acme.TxtStore.{new_txt_store, get, normalize_name}
use oastrix.Acme.Provider.{is_txt, absolute_name, Rr, append_records, delete_records}
use oastrix.Events.{Question}
use oastrix.Server.Dns.{qname_of, Reply, answer_with, txt_rr, handle_question}
use oastrix.Cmd.Server.DnsRecording.{dns_server}
use oastrix.Cmd.Server.Challenges.{handle_question-published}
use oastrix.Tests.Data.{differ, rt, domain, ip, client, message, db}
use oastrix.Acme.TxtStore.Laws.{holds}
use oastrix.Acme.Provider.Laws.{listed, delete-append_records}

abbrev name : Str
name = bytes "_acme-challenge.oast.example"

abbrev dotted : Str
dotted = bytes "_ACME-challenge.oast.example."

abbrev v : Str
v = bytes "digest"

fresh : holds new_txt_store dotted v ≡ false
unfolding get new_txt_store lookup contains
fresh = refl

abbrev zone : Str
zone = bytes "oast.example."

abbrev recs : List Rr
recs =
    record { name = bytes "_acme-challenge"; type = bytes "TXT"; content = v }
    ∷ record { name = bytes "_acme-challenge"; type = bytes "A"; content = v }
    ∷ []

-- A query for the record, in mixed case.
abbrev asked : Question
asked = record { name = dotted; qtype = 16; qclass = 1 }

abbrev reply : Reply
reply = record { rcode = 0; answer = [] }

abbrev type_name : ℕ → Str
type_name t = bytes "TXT"

below : qname_of asked ≢ bytes "ns1." ++ domain
unfolding qname_of to_lower trim_suffix has_suffix lower_byte str_eq
below = differ (qname_of asked) (bytes "ns1." ++ domain) refl

published : listed zone recs (normalize_name asked.name) v ≡ true
unfolding is_txt absolute_name normalize_name to_lower trim_suffix has_suffix str_eq lower_byte
published = refl

handle_question-published_example :
    (values : List Str) × (handle_question rt type_name
        (dns_server rt domain ip (some (append_records zone recs new_txt_store)))
        client
        message
        asked
        reply
        db
      ≡ (some (answer_with (map (txt_rr dotted) values) reply), db))
    × ((w : Str)
        → contains values w ≡ (
            listed zone recs (normalize_name asked.name) w
            || holds new_txt_store (normalize_name asked.name) w))
handle_question-published_example =
    handle_question-published rt type_name domain ip client message asked reply db refl below zone
      recs new_txt_store v published

nothing_published : (m w : Str) → listed zone recs m w ≡ true → holds new_txt_store m w ≡ false
unfolding get new_txt_store lookup contains
nothing_published m w h = refl

delete-append_records_example :
    holds (delete_records zone recs (append_records zone recs new_txt_store)) name v
    ≡ holds new_txt_store name v
delete-append_records_example =
    delete-append_records zone recs new_txt_store nothing_published name v
