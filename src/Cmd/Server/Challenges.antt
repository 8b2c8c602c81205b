-- ===== src/Cmd/Server/Challenges.antt =====
-- A DNS-01 challenge: what the provider of internal/acme/provider.go publishes, and what
-- `handleDNS` of internal/server/dns.go then answers, over the store that they share.
use oastrix.Prelude.{
  ◌∙◌, ℕ, ◌≡◌, ◌≢◌, refl, Str, bytes, true, false, ◌||◌, some, none, List, [], ◌∷◌, ◌++◌, map,
  arith, str_eq_iff, contains,
}
use oastrix.Events.{DnsMsg, Question}
use oastrix.Runtime.{Runtime}
use oastrix.Db.{Db}
use oastrix.Acme.TxtStore.{TxtStore, normalize_name, get}
use oastrix.Acme.TxtStore.Laws.{holds}
use oastrix.Acme.Provider.{Rr, append_records, delete_records}
use oastrix.Acme.Provider.Laws.{listed, holds-append_records, delete-append_records}
use oastrix.Server.Dns.{
  zone_answer, txt_answer, txt_rr, answer_with, type_txt, handle_question, DnsServer, NetAddr,
  Reply, token_question, qname_of,
}
use oastrix.Cmd.Server.DnsRecording.{dns_server}

contains-nonempty :
    (values : List Str) (v : Str)
    → contains values v ≡ true
    → (x : Str) × (xs : List Str) × (values ≡ x ∷ xs)
unfolding contains
contains-nonempty [] v h = cc
contains-nonempty (x ∷ xs) v h = (x, xs, refl)

contains-nothing : (values : List Str) → ((w : Str) → contains values w ≡ false) → values ≡ []
unfolding contains
contains-nothing [] h = refl
contains-nothing (x ∷ xs) h = ground (arith, h x, str_eq_iff x x)

module _ (rt : Runtime) (type_to_string : ℕ → Str) (domain ip : Str) (addr : NetAddr) (r : DnsMsg)
    (q : Question) (m : Reply) (db : Db) (asks : q.qtype ≡ type_txt)
    (below : qname_of q ≢ bytes "ns1." ++ domain) where
  zone_answer-txt : (s : DnsServer) → s.domain ≡ domain → zone_answer rt s q ≡ none
  unfolding zone_answer
  zone_answer-txt s same = ground (arith, str_eq_iff (qname_of q) (bytes "ns1." ++ domain))

  txt_answer-some :
      (s : DnsServer) (store : TxtStore) (v : Str)
      → s.txt_store ≡ some store
      → holds store (normalize_name q.name) v ≡ true
      → txt_answer s q ≡ some (map (txt_rr q.name) (get (normalize_name q.name) store))
  unfolding txt_answer
  txt_answer-some s store v shared held =
      let (x, xs, filled) = contains-nonempty (get (normalize_name q.name) store) v held in
      rw (shared, filled) (ground (arith, asks))

  txt_answer-none :
      (s : DnsServer) (store : TxtStore)
      → s.txt_store ≡ some store
      → get (normalize_name q.name) store ≡ []
      → txt_answer s q ≡ none
  unfolding txt_answer
  txt_answer-none s store shared emptied = rw (shared, emptied) (ground (arith, asks))

  -- Once the provider has published records, a query of type TXT for a name under which one of them
  -- stands is answered with a TXT record for each value that the provider published for that name,
  -- or that stood there before, and for no other, and nothing is recorded. The name is not that of
  -- the name server.
  pub handle_question-published :
      (zone : Str) (recs : List Rr) (store : TxtStore) (v : Str)
      → listed zone recs (normalize_name q.name) v ≡ true
      → let s = dns_server rt domain ip (some (append_records zone recs store)) in
        (values : List Str) × (handle_question rt type_to_string s addr r q m db
          ≡ (some (answer_with (map (txt_rr q.name) values) m), db))
        × ((w : Str)
            → contains values w ≡ (
                listed zone recs (normalize_name q.name) w
                || holds store (normalize_name q.name) w))
  unfolding handle_question
  handle_question-published zone recs store v published =
      let name = normalize_name q.name in
      let after = append_records zone recs store in
      let s = dns_server rt domain ip (some after) in
      let held : holds after name v ≡ true =
        ground (arith, holds-append_records zone recs store name v) in
      (
        get name after,
        rw (zone_answer-txt s refl, handle_question, txt_answer-some s after v refl held) refl,
        holds-append_records zone recs store name,
      )

  -- Once the provider has withdrawn what it published in a store that published nothing under the
  -- name, the query goes on to the token, as before.
  pub handle_question-withdrawn :
      (zone : Str) (recs : List Rr) (store : TxtStore)
      → ((n w : Str) → listed zone recs n w ≡ true → holds store n w ≡ false)
      → ((w : Str) → holds store (normalize_name q.name) w ≡ false)
      → let left = delete_records zone recs (append_records zone recs store) in
        let s = dns_server rt domain ip (some left) in
        handle_question rt type_to_string s addr r q m db
        ≡ token_question rt type_to_string s addr r q m db
  unfolding handle_question
  handle_question-withdrawn zone recs store fresh bare =
      let name = normalize_name q.name in
      let left = delete_records zone recs (append_records zone recs store) in
      let s = dns_server rt domain ip (some left) in
      let emptied : get name left ≡ [] =
        contains-nothing (get name left)
          (λ w. delete-append_records zone recs store fresh name w ∙ bare w) in
      rw (zone_answer-txt s refl, handle_question, txt_answer-none s left refl emptied) refl
