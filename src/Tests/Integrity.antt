-- ===== src/Tests/Integrity.antt =====
-- The database of the tests, with statements that fail.
use oastrix.Prelude.{false, ◌++◌, bytes, true, none, [], ◌∷◌}
use oastrix.Db.{Db}
use oastrix.Db.Integrity.{IsWellFormed}
use oastrix.Db.Integrity.Creation.{moved-IsWellFormed}
use oastrix.Server.Http.{serve_http}
use oastrix.Server.Dns.{handle_dns}
use oastrix.Server.Api.Routes.{handler, delete_token}
use oastrix.Server.Api.Routes.Integrity.{handler-IsWellFormed}
use oastrix.Auth.{join_key}
use oastrix.Server.Api.Access.{bearer}
use oastrix.Cmd.Server.HttpRecording.{http_server}
use oastrix.Cmd.Server.DnsRecording.{dns_server}
use oastrix.Cmd.Server.Integrity.{serve_http-IsWellFormed, handle_dns-IsWellFormed}
use oastrix.Tests.Data.{
  server, client, rt, domain, ip, tok, prefix, secret, db, db-IsWellFormed, request, host, message,
}

-- The third statement fails: the insertion of the details.
abbrev failing : Db
failing = record db { faults = false ∷ false ∷ true ∷ [] }

failing-IsWellFormed : IsWellFormed failing
failing-IsWellFormed = moved-IsWellFormed db 0 (false ∷ false ∷ true ∷ []) db-IsWellFormed

serve_http-IsWellFormed_example :
    IsWellFormed (serve_http (λ r. none) (http_server rt domain ip) (request host) failing).1
serve_http-IsWellFormed_example =
    serve_http-IsWellFormed rt domain ip (λ r. none) (request host) failing failing-IsWellFormed

handle_dns-IsWellFormed_example :
    IsWellFormed
      (handle_dns rt (λ t. bytes "A") (dns_server rt domain ip none) client message failing).1
handle_dns-IsWellFormed_example =
    handle_dns-IsWellFormed rt domain ip (λ t. bytes "A") none client message failing
      failing-IsWellFormed

handler-IsWellFormed_example :
    IsWellFormed (handler rt server none (delete_token tok) (bearer ++ join_key prefix secret) db).1
handler-IsWellFormed_example =
    handler-IsWellFormed rt server none (delete_token tok) (bearer ++ join_key prefix secret) db
      db-IsWellFormed
