-- ===== src/Server/Http.antt =====
-- The HTTP server: `HTTPServer.ServeHTTP` of internal/server/http.go. The handler of ACME
-- challenges, which belongs to certmagic, is an argument: what it replies, or `none` where it does
-- not handle the request. What is logged is left out.
use oastrix.Prelude.{
  atoi, ℤ, ℕ, Str, bytes, Bool, true, false, not, Option, none, some, List, [], ◌++◌, if◌then◌else◌,
  str_eq, has_prefix,
}
use oastrix.Events.{
  HttpEvent, HttpDraft, InteractionDraft, HttpRequest, HttpResponsePlan, kind_http,
}
use oastrix.Db.{Db, now}
use oastrix.Plugins.Interfaces.{Fault, panic, error}
use oastrix.Plugins.Pipeline.{Pipeline, Run, process_http}
use oastrix.Server.Host.{split_host_port, extract_token, is_valid_host}

pub record HttpServer : Type 0 where
  pub pipeline : Pipeline Db
  pub domain : Str
  pub public_ip : Str

pub record HttpReply : Type 0 where
  pub status : ℕ
  pub headers : List (Str × Str)
  pub body : Str

-- A panic of a handler aborts its request.
pub data Served : Type 0 where
  replied : HttpReply → Served
  aborted : Served

-- The address and the port of the client; the error of `Atoi` is dropped.
unfoldable pub remote : Str → Str × ℤ
remote addr = elim (split_host_port addr) [
  | none ↦ (addr, (atoi (bytes "0")).0)
  | some (ip, port) ↦ (ip, (atoi port).0)
]

abbrev pub scheme_of : Bool → Str
scheme_of true = bytes "https"
scheme_of false = bytes "http"

-- A body that cannot be read is recorded as nil.
abbrev pub body_of : Option Str → Str
body_of none = []
body_of (some body) = body

unfoldable pub http_draft_of : HttpRequest → HttpDraft
http_draft_of r = record {
  method = r.method;
  scheme = scheme_of r.tls;
  host = r.host;
  path = r.path;
  query = r.raw_query;
  proto = r.proto;
  headers = r.header;
  body = body_of r.body;
}

unfoldable pub draft_of : HttpRequest → Str → ℕ → InteractionDraft
unfolding remote http_draft_of
draft_of r token occurred = record {
  token_value = token;
  token_id = 0;
  kind = kind_http;
  occurred_at = occurred;
  remote_ip = (remote r.remote_addr).0;
  remote_port = (remote r.remote_addr).1;
  tls = r.tls;
  summary = r.method ++ (bytes " " ++ (r.path ++ (bytes " " ++ r.proto)));
  http = some (http_draft_of r);
  dns = none;
  attributes = [];
  drop = false;
}

unfoldable pub event_of : HttpRequest → Str → ℕ → HttpEvent
unfolding draft_of
event_of r token occurred = record {
  event = record { draft = some (draft_of r token occurred); interaction_id = 0 };
  req = r;
  resp = some (record { status = 200; headers = []; body = bytes "ok"; handled = false });
  extra = [];
}

-- The response plan is written whether the pipeline returned an error or not.
abbrev pub write_plan : Option HttpResponsePlan → Served
write_plan none = aborted
write_plan (some resp) =
    replied (record { status = resp.status; headers = resp.headers; body = resp.body })

abbrev pub respond : Option Fault × Run Db HttpEvent → Served × Db
respond (none, run) = (write_plan run.event.resp, run.state)
respond (some (error e), run) = (write_plan run.event.resp, run.state)
respond (some panic, run) = (aborted, run.state)

abbrev pub start : {E : Type 0} → E → Db → Run Db E
start e db = record { event = e; state = db; log = [] }

-- From the draft on: the interaction is recorded and answered.
unfoldable pub record_interaction : HttpServer → HttpRequest → Str → Db → Served × Db
unfolding event_of
record_interaction s r token db =
    let db1 = (now db).1 in
    respond (process_http s.pipeline (start (event_of r token (db.clock db.reads)) db1))

abbrev pub not_found : HttpReply
not_found = record { status = 404; headers = []; body = [] }

abbrev pub plain_ok : HttpReply
plain_ok = record { status = 200; headers = []; body = bytes "ok" }

unfoldable pub serve_request : HttpServer → HttpRequest → Db → Served × Db
unfolding record_interaction
serve_request s r db =
    if not (is_valid_host r.host s.domain s.public_ip)
    then (replied not_found, db)
    else (let token = extract_token r.host r.path s.domain in
        if str_eq token [] then (replied plain_ok, db) else record_interaction s r token db)

abbrev pub challenge_path : Str
challenge_path = bytes "/.well-known/acme-challenge/"

unfoldable pub serve_http :
    (HttpRequest → Option HttpReply) → HttpServer → HttpRequest → Db → Served × Db
unfolding serve_request
serve_http challenge s r db =
    if has_prefix r.path challenge_path
    then elim (challenge r) [ some reply ↦ (replied reply, db) | none ↦ serve_request s r db ]
    else serve_request s r db
