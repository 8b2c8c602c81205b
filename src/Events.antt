-- ===== src/Events.antt =====
-- Interactions in progress and response plans: internal/events. A Go map is an association list, a
-- pointer that may be nil an `Option`. The fields `int` and `int64` hold no negative number here:
-- they are ports, IDs, times and DNS codes.
use oastrix.Prelude.{ℤ, ℕ, Str, bytes, Bool, Option, List}

-- A value of the Go type `any`, known by its JSON encoding; a channel or a function has none.
pub data Any : Type 0 where
  encodes : Str → Any
  unencodable : Any

abbrev pub Attributes : Type 0
Attributes = List (Str × Any)

abbrev pub Headers : Type 0
Headers = List (Str × List Str)

abbrev pub kind_http : Str
kind_http = bytes "http"

abbrev pub kind_dns : Str
kind_dns = bytes "dns"

pub record HttpDraft : Type 0 where
  pub method : Str
  pub scheme : Str
  pub host : Str
  pub path : Str
  pub query : Str
  pub proto : Str
  pub headers : Headers
  pub body : Str

pub record DnsDraft : Type 0 where
  pub qname : Str
  pub qtype : ℕ
  pub qclass : ℕ
  pub rd : ℕ
  pub opcode : ℕ
  pub dns_id : ℕ
  pub protocol : Str

pub record InteractionDraft : Type 0 where
  pub token_value : Str
  pub token_id : ℕ
  pub kind : Str
  pub occurred_at : ℕ
  pub remote_ip : Str
  pub remote_port : ℤ
  pub tls : Bool
  pub summary : Str
  pub http : Option HttpDraft
  pub dns : Option DnsDraft
  pub attributes : Attributes
  pub drop : Bool

pub record HttpResponsePlan : Type 0 where
  pub status : ℕ
  pub headers : List (Str × Str)
  pub body : Str
  pub handled : Bool

-- A resource record of a DNS answer: its name, its time to live and its content.
pub data Rr : Type 0 where
  a : Str → ℕ → Str → Rr
  ns : Str → ℕ → Str → Rr
  txt : Str → ℕ → Str → Rr
  soa : Str → ℕ → Str → Str → Rr

pub record DnsResponsePlan : Type 0 where
  pub rcode : ℕ
  pub answers : List Rr
  pub handled : Bool

pub record Event : Type 0 where
  pub draft : Option InteractionDraft
  pub interaction_id : ℕ

-- `HTTPEvent` and `DNSEvent`: an event, the request, the response plan and one more field.
pub record EventOf (Q R X : Type 0) : Type 0 where
  pub event : Event
  pub req : Q
  pub resp : Option R
  pub extra : X

-- What the servers read of an `http.Request`. `body` is what reading it up to the limit delivers,
-- `none` where that fails.
pub record HttpRequest : Type 0 where
  pub method : Str
  pub host : Str
  pub path : Str
  pub raw_query : Str
  pub proto : Str
  pub remote_addr : Str
  pub tls : Bool
  pub header : Headers
  pub body : Option Str

pub record Question : Type 0 where
  pub name : Str
  pub qtype : ℕ
  pub qclass : ℕ

-- What the servers read of a `dns.Msg`.
pub record DnsMsg : Type 0 where
  pub id : ℕ
  pub opcode : ℕ
  pub recursion_desired : Bool
  pub question : List Question

-- The extra field is `Scratch`.
abbrev pub HttpEvent : Type 0
HttpEvent = EventOf HttpRequest HttpResponsePlan Attributes

-- The extra field is `QNameRaw`.
abbrev pub DnsEvent : Type 0
DnsEvent = EventOf DnsMsg DnsResponsePlan Str

abbrev pub http_handled : HttpResponsePlan → Bool
http_handled r = r.handled

abbrev pub dns_handled : DnsResponsePlan → Bool
dns_handled r = r.handled
