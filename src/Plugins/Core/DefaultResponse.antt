-- ===== src/Plugins/Core/DefaultResponse.antt =====
-- The default response plugin: internal/plugins/core/defaultresponse/plugin.go. Its hooks read no
-- state. `Priority` is left out: nothing calls it.
use oastrix.Prelude.{
  ℕ, Str, bytes, true, not, ◌&&◌, Option, none, some, [], ◌∷◌, ◌++◌, if◌then◌else◌, ◌==◌, str_eq,
  has_suffix,
}
use oastrix.Events.{
  InteractionDraft, DnsDraft, HttpResponsePlan, DnsResponsePlan, HttpEvent, DnsEvent, a,
}
use oastrix.Plugins.Interfaces.{Hook, Plugin}

-- `New`: the parsed public address, or the loopback address.
abbrev pub public_ip_or_loopback : Option Str → Str
public_ip_or_loopback none = bytes "127.0.0.1"
public_ip_or_loopback (some ip) = ip

abbrev pub type_a : ℕ
type_a = 1

abbrev pub default_ttl : ℕ
default_ttl = 300

abbrev pub default_plan : HttpResponsePlan → HttpResponsePlan
default_plan resp = record resp { status = 200; body = bytes "ok"; handled = true }

abbrev pub dns_of : Option InteractionDraft → Option DnsDraft
dns_of none = none
dns_of (some draft) = draft.dns

unfoldable pub fully_qualified : Str → Str
fully_qualified qname =
    if not (str_eq qname []) && not (has_suffix qname (bytes "."))
    then qname ++ bytes "."
    else qname

abbrev pub answer_plan : Str → DnsDraft → DnsResponsePlan → DnsResponsePlan
answer_plan ip draft resp = record resp {
  answers = resp.answers ++ a (fully_qualified draft.qname) default_ttl ip ∷ [];
  handled = true;
}

abbrev pub answered : Str → DnsEvent → DnsResponsePlan → Option DnsDraft → DnsEvent
answered ip e resp none = e
answered ip e resp (some draft) =
    if not (draft.qtype == type_a) then e else record e { resp = some (answer_plan ip draft resp) }

module _ {S : Type 0} where
  unfoldable pub on_http_response : Hook S HttpEvent
  on_http_response e s = elim e.resp [
    | none ↦ (none, e, s)
    | some resp ↦
        if resp.handled
        then (none, e, s)
        else (none, record e { resp = some (default_plan resp) }, s)
  ]

  unfoldable pub on_dns_response : Str → Hook S DnsEvent
  unfolding fully_qualified
  on_dns_response ip e s = elim e.resp [
    | none ↦ (none, e, s)
    | some resp ↦
        if resp.handled then (none, e, s) else (none, answered ip e resp (dns_of e.event.draft), s)
  ]

  abbrev pub default_response_plugin : Str → Plugin S
  default_response_plugin ip = record {
    id = bytes "defaultresponse";
    is_core = some true;
    config = none;
    on_pre_store = none;
    on_post_store = none;
    on_http_response = some on_http_response;
    on_dns_response = some (on_dns_response ip);
  }
