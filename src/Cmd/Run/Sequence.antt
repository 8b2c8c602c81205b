-- ===== src/Cmd/Run/Sequence.antt =====
-- The order of the steps of `runServer` in cmd/oastrix/server.go: the servers of each mode, from the
-- opened database to the end of the shutdown.
use oastrix.Prelude.{Str, Bool, ◌&&◌, ◌||◌, Option, none, some, [], if◌then◌else◌, str_eq}
use oastrix.Runtime.{Runtime}
use oastrix.Acme.Manager.{Certmagic, manage, manage_ip, tls_config}
use oastrix.Server.Lifecycle.{ServeError}
use oastrix.Server.DnsStart.{StartError}
use oastrix.Cmd.Server.DnsRecording.{dns_server}
use oastrix.Cmd.Run.{
  ServerFlags, Name, ServerTls, RunState, Ran, Run, go_on, ◌>>=◌, ◌>>◌, give, stop, manual_tls,
  acme_mode, txt_store, acme_manager, is_some_tls, managed_tls, on_acme, start_server,
  dns_not_failed, start_api, shut_down_all, first_key, act, http, https, manual, dns_started,
  open_database, public_ip_required, load_certificate, stops,
}

module _ {W C Hello : Type 0} (cm : Certmagic W C Hello) (rt : Runtime) (is_ipv4 : Str → Bool)
    (load_key_pair : Str → Str → Option C) (startup : Name → Option ServeError)
    (dns_startup : Option StartError) (flags : ServerFlags) where
  -- The branch of the ACME mode. The TLS configuration is taken before `ManageIP`.
  unfoldable pub start_acme : Run (RunState W C Hello) (Option (ServerTls C Hello))
  start_acme = do
    m ← on_acme (manage cm (acme_manager flags))
    let tls = managed_tls (tls_config cm m)
    start_server startup https flags.https_port tls
    m' ← on_acme (manage_ip cm rt.parse_ip is_ipv4 m)
    give tls

  abbrev pub loaded_tls : Option C → Run (RunState W C Hello) (Option (ServerTls C Hello))
  loaded_tls none = stop load_certificate
  loaded_tls (some c) = do
    start_server startup https flags.https_port (some (manual c))
    give (some (manual c))

  -- The HTTPS server of the mode: the TLS configuration, if there is one.
  unfoldable pub start_https : Run (RunState W C Hello) (Option (ServerTls C Hello))
  unfolding start_acme
  start_https =
      if acme_mode flags
      then start_acme
      else if manual_tls flags
      then loaded_tls (load_key_pair flags.tls_cert flags.tls_key)
      else give none

  -- From the check of the flags on.
  unfoldable pub start_all : Run (RunState W C Hello) (Unit {0})
  unfolding start_https start_api shut_down_all
  start_all = do
    if acme_mode flags && str_eq flags.public_ip [] then stop public_ip_required else give tt
    start_server startup http flags.http_port none
    act (dns_started (dns_server rt flags.domain flags.public_ip (txt_store flags)) flags.dns_port)
    dns_not_failed dns_startup
    tls ← start_https
    start_api startup flags.api_port tls
    shut_down_all (acme_mode flags || manual_tls flags) (is_some_tls tls)

  -- `none` where the database could not be opened.
  unfoldable pub run_server :
      Option Str
      → Option Str
      → Option (RunState W C Hello)
      → Ran (Unit {0}) × Option (RunState W C Hello)
  unfolding first_key start_all
  run_server prefix_read secret_read none = (stops open_database, none)
  run_server prefix_read secret_read (some s) =
      let (end, s') = go_on (first_key rt.sha256 prefix_read secret_read s) (λ u. start_all) in
      (end, some s')
