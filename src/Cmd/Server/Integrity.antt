-- ===== src/Cmd/Server/Integrity.antt =====
-- Referential integrity and the servers that `runServer` sets up.
use oastrix.Server.Http
use oastrix.Server.Dns
use oastrix.Plugins.Core.Storage.Integrity.{on_pre_store-IsWellFormed, stored_draft-IsWellFormed}
use oastrix.Server.Dns.{
  Answering, NetAddr, Reply, handle_question, handle_questions, handle_dns, token_question,
  zone_answer, txt_answer,
}
use oastrix.Prelude.{
  ℕ, suc, ◌≡◌, Str, not, Option, none, some, List, [], ◌∷◌, arith, str_eq, has_prefix,
  if◌then◌else◌, if_both, Option-cases, inl, inr,
}
use oastrix.Events.{HttpEvent, DnsEvent, HttpRequest, DnsMsg, Question}
use oastrix.Runtime.{Runtime}
use oastrix.Acme.TxtStore.{TxtStore}
use oastrix.Db.{Db}
use oastrix.Db.Integrity.{IsWellFormed}
use oastrix.Db.Integrity.Creation.{moved-IsWellFormed}
use oastrix.Db.Integrity.Saving.{save_attributes-IsWellFormed}
use oastrix.Plugins.Interfaces.{Fault, panic, error}
use oastrix.Plugins.Pipeline.{Run, process_http, process_dns}
use oastrix.Plugins.Pipeline.Invariant.{PipelineKeeps, process-keeps}
use oastrix.Plugins.Core.DefaultResponse.{on_http_response, on_dns_response}
use oastrix.Server.Host.{extract_token, is_valid_host}
use oastrix.Server.Http.{
  HttpReply, replied, not_found, plain_ok, challenge_path, serve_http, serve_request,
  record_interaction,
}
use oastrix.Cmd.Server.{server_pipeline}
use oastrix.Cmd.Server.HttpRecording.{http_server}
use oastrix.Cmd.Server.DnsRecording.{dns_server}

on_http_response-state : (e : HttpEvent) (db : Db) → (on_http_response e db).2 ≡ db
unfolding on_http_response
on_http_response-state e db = ground arith

on_dns_response-state : (ip : Str) (e : DnsEvent) (db : Db) → (on_dns_response ip e db).2 ≡ db
unfolding on_dns_response
on_dns_response-state ip e db = ground arith

server_pipeline-keeps :
    (rt : Runtime) (ip : Str) → PipelineKeeps IsWellFormed (server_pipeline rt ip)
unfolding server_pipeline
server_pipeline-keeps rt ip = record {
  pre_store = (on_pre_store-IsWellFormed, tt);
  post_store = tt;
  http_response = ((λ e db w. rw (on_http_response-state e db) w), tt);
  dns_response = ((λ e db w. rw (on_dns_response-state _ e db) w), tt);
  store = record { creation = stored_draft-IsWellFormed rt; saving = save_attributes-IsWellFormed };
}

respond_http-IsWellFormed :
    (m : Option Fault × Run Db HttpEvent) → IsWellFormed m.1.state → IsWellFormed (Http.respond m).1
respond_http-IsWellFormed (none, r) w = w
respond_http-IsWellFormed (some (error e), r) w = w
respond_http-IsWellFormed (some panic, r) w = w

respond_dns-IsWellFormed :
    (m : Option Fault × Run Db DnsEvent) (reply : Reply)
    → IsWellFormed m.1.state
    → IsWellFormed (Dns.respond m reply).1
respond_dns-IsWellFormed (none, r) reply w = w
respond_dns-IsWellFormed (some (error e), r) reply w = w
respond_dns-IsWellFormed (some panic, r) reply w = w

module _ (rt : Runtime) (domain ip : Str) where
  record_interaction-IsWellFormed :
      (r : HttpRequest) (tok : Str) (db : Db)
      → IsWellFormed db
      → IsWellFormed (record_interaction (http_server rt domain ip) r tok db).1
  unfolding record_interaction process_http server_pipeline
  record_interaction-IsWellFormed r tok db w =
      let k = server_pipeline-keeps rt ip in
      respond_http-IsWellFormed _ (
        process-keeps IsWellFormed _ "http response hook error" (server_pipeline rt ip) _ _ k
          k.http_response (moved-IsWellFormed db (suc db.reads) db.faults w))

  serve_request-IsWellFormed :
      (r : HttpRequest) (db : Db)
      → IsWellFormed db
      → IsWellFormed (serve_request (http_server rt domain ip) r db).1
  unfolding serve_request
  serve_request-IsWellFormed r db w =
      let tok = extract_token r.host r.path domain in
      let recorded = record_interaction (http_server rt domain ip) r tok db in
      if_both (λ m. IsWellFormed m.1) (not (is_valid_host r.host domain ip)) (replied not_found, db)
        (if str_eq tok [] then (replied plain_ok, db) else recorded) w
        (if_both (λ m. IsWellFormed m.1) (str_eq tok []) (replied plain_ok, db) recorded w
          (record_interaction-IsWellFormed r tok db w))

  -- Whatever request the HTTP server gets, and whatever statements the engine fails, it keeps the
  -- referential integrity of the database.
  pub serve_http-IsWellFormed :
      (challenge : HttpRequest → Option HttpReply) (r : HttpRequest) (db : Db)
      → IsWellFormed db
      → IsWellFormed (serve_http challenge (http_server rt domain ip) r db).1
  unfolding serve_http
  serve_http-IsWellFormed challenge r db w =
      let served = serve_request (http_server rt domain ip) r db in
      let passed = serve_request-IsWellFormed r db w in
      elim (Option-cases (challenge r)) [
        | inl unhandled ↦
            rw (unhandled, serve_http)
              (if_both (λ m. IsWellFormed m.1) (has_prefix r.path challenge_path) served served
                passed passed)
        | inr (reply, handled) ↦
            rw (handled, serve_http)
              (if_both (λ m. IsWellFormed m.1) (has_prefix r.path challenge_path)
                (replied reply, db) served w passed)
      ]

  module _ (type_to_string : ℕ → Str) (store : Option TxtStore) (addr : NetAddr)
      (msg : DnsMsg) where
    token_question-IsWellFormed :
        (q : Question) (m : Reply) (db : Db)
        → IsWellFormed db
        → IsWellFormed
            (token_question rt type_to_string (dns_server rt domain ip store) addr msg q m db).1
    unfolding token_question process_dns server_pipeline
    token_question-IsWellFormed q m db w =
        let k = server_pipeline-keeps rt ip in
        if_both {A = Answering} (λ m. IsWellFormed m.1) _ _ _ w
          (respond_dns-IsWellFormed _ m (
            process-keeps IsWellFormed _ "dns response hook error" (server_pipeline rt ip) _ _ k
              k.dns_response (moved-IsWellFormed db (suc db.reads) db.faults w)))

    handle_question-IsWellFormed :
        (q : Question) (m : Reply) (db : Db)
        → IsWellFormed db
        → IsWellFormed
            (handle_question rt type_to_string (dns_server rt domain ip store) addr msg q m db).1
    unfolding handle_question
    handle_question-IsWellFormed q m db w =
        let s = dns_server rt domain ip store in
        elim (Option-cases (zone_answer rt s q)) [
          | inr (rrs, answers) ↦ rw (answers, handle_question) w
          | inl passed ↦ elim (Option-cases (txt_answer s q)) [
            | inr (rrs, answers) ↦ rw (passed, handle_question, answers) w
            | inl none' ↦ rw (passed, handle_question, none') (token_question-IsWellFormed q m db w)
          ]
        ]

    handle_questions-IsWellFormed :
        (qs : List Question) (m : Reply) (db : Db)
        → IsWellFormed db
        → IsWellFormed
            (handle_questions rt type_to_string (dns_server rt domain ip store) addr msg qs m db).1
    unfolding handle_questions
    handle_questions-IsWellFormed [] m db w = w
    handle_questions-IsWellFormed (q ∷ qs) m db w =
        let step =
          handle_question rt type_to_string (dns_server rt domain ip store) addr msg q m db in
        let w1 = handle_question-IsWellFormed q m db w in
        elim (Option-cases step.0) [
          | inl panicked ↦ rw (panicked, handle_questions) w1
          | inr (m1, answered) ↦
              rw (answered, handle_questions) (handle_questions-IsWellFormed qs m1 step.1 w1)
        ]

    -- Whatever query the DNS server gets, and whatever statements the engine fails, it keeps the
    -- referential integrity of the database.
    pub handle_dns-IsWellFormed :
        (db : Db)
        → IsWellFormed db
        → IsWellFormed (handle_dns rt type_to_string (dns_server rt domain ip store) addr msg db).1
    unfolding handle_dns
    handle_dns-IsWellFormed db w = handle_questions-IsWellFormed msg.question _ db w
