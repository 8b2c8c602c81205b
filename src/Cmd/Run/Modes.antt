-- ===== src/Cmd/Run/Modes.antt =====
-- Which listeners `runServer` of cmd/oastrix/server.go starts in which mode, and how they are
-- stopped.
use oastrix.Cmd.Run.{
  started_with, acme_mode, managed, acme_manager, ServerFlags, Name, http, https, api, ServerTls,
  manual, Act, dns_started, shut_down, dns_shut_down, RunState, goes_on, manual_tls, txt_store,
  start_api, shut_down_all,
}
use oastrix.Cmd.Run.Sequence.{start_acme, start_all, start_https}
use oastrix.Prelude.{
  ◌∙◌, ◌&&◌, ◌||◌, bytes, ◌++◌, arith, str_eq_iff, str_eq, [], ◌≢◌, ◌≡◌, refl, Str, Bool, true,
  false, Option, none, some, List, ◌∷◌,
}
use oastrix.Acme.Manager.Managing.{domain_config, manage-done, manage_ip-done}
use oastrix.Acme.Manager.{config_tls, tls_config, new_manager, Certmagic}
use oastrix.Runtime.{Runtime}
use oastrix.Server.Lifecycle.{ServeError}
use oastrix.Cmd.Server.DnsRecording.{dns_server}

str_eq_nil : (s : Str) → s ≢ [] → str_eq s [] ≡ false
str_eq_nil s ne = ground (arith, str_eq_iff s [])

module _ {W C Hello : Type 0} (cm : Certmagic W C Hello) (rt : Runtime) (is_ipv4 : Str → Bool)
    (load_key_pair : Str → Str → Option C) (flags : ServerFlags) where
  -- Every listener starts.
  abbrev all_start : Name → Option ServeError
  all_start name = none

  -- What is done in every mode first, the last act first: the HTTP and the DNS server start.
  abbrev pub plain_acts : List (Act C Hello) → List (Act C Hello)
  plain_acts acts =
      dns_started (dns_server rt flags.domain flags.public_ip (txt_store flags)) flags.dns_port
      ∷ started_with http flags.http_port none
      ∷ acts

  -- With TLS, HTTPS and the API are served under it too, and the shutdown follows.
  abbrev pub tls_acts : ServerTls C Hello → List (Act C Hello) → List (Act C Hello)
  tls_acts tls acts =
      dns_shut_down
      ∷ shut_down api
      ∷ shut_down http
      ∷ shut_down https
      ∷ started_with api flags.api_port (some tls)
      ∷ started_with https flags.https_port (some tls)
      ∷ plain_acts acts

  -- Without ACME and without a certificate, only the HTTP and the DNS server run, and the API is
  -- not served at all.
  start_all-plain :
      (s : RunState W C Hello)
      → manual_tls flags ≡ false
      → flags.no_acme ≡ true
      → start_all cm rt is_ipv4 load_key_pair all_start none flags s
        ≡ (goes_on tt, record s { acts = dns_shut_down ∷ shut_down http ∷ plain_acts s.acts })
  unfolding start_all start_https start_api shut_down_all
  start_all-plain s certless off = rw (certless, off, start_all) refl

  -- With a certificate that can be loaded, HTTPS and the API are served with it.
  start_all-manual :
      (s : RunState W C Hello) (c : C)
      → manual_tls flags ≡ true
      → load_key_pair flags.tls_cert flags.tls_key ≡ some c
      → start_all cm rt is_ipv4 load_key_pair all_start none flags s
        ≡ (goes_on tt, record s { acts = tls_acts (manual c) s.acts })
  unfolding start_all start_https start_api shut_down_all
  start_all-manual s c certified loaded = rw (certified, start_all, loaded) refl

  -- Certmagic has a storage, takes the domain and its wildcard, and the address can be read.
  pub record IsManageable (w : W) : Type 0 where
    pub ip : Str
    pub read : rt.parse_ip flags.public_ip ≡ some ip
    pub made : (cm.new_storage w).0 ≡ true
    pub taken :
        (cm.manage_async
          (domain_config cm (acme_manager flags))
          (flags.domain ∷ (bytes "*." ++ flags.domain) ∷ [])
          (cm.new_storage w).1).0
        ≡ true

  -- The configuration of the ACME mode: the certificates of the domain alone.
  abbrev pub acme_tls : ServerTls C Hello
  acme_tls = managed (config_tls cm (domain_config cm (acme_manager flags)))

  start_acme-done :
      (s : RunState W C Hello)
      → IsManageable s.acme
      → (w : W) × (start_acme cm rt is_ipv4 load_key_pair all_start none flags s ≡ (
        goes_on (some acme_tls),
        record s { acme = w; acts = started_with https flags.https_port (some acme_tls) ∷ s.acts },
      ))
  unfolding start_acme tls_config new_manager
  start_acme-done s ready =
      let m = acme_manager flags in
      let (w, same) = manage-done cm m s.acme ready.made ready.taken in
      let (m', w', done) =
        manage_ip-done cm rt.parse_ip is_ipv4
          (record m { storage = true; dns_config = some (domain_config cm m) }) w ready.ip
          ready.read in
      (w', rw (same, done) refl)

  start_https-acme :
      (s : RunState W C Hello)
      → manual_tls flags ≡ false
      → flags.no_acme ≡ false
      → start_https cm rt is_ipv4 load_key_pair all_start none flags s
        ≡ start_acme cm rt is_ipv4 load_key_pair all_start none flags s
  unfolding start_https
  start_https-acme s certless on = rw (certless, on, start_https) refl

  -- In the ACME mode HTTPS and the API are served with the certificates of the domain.
  start_all-acme :
      (s : RunState W C Hello)
      → manual_tls flags ≡ false
      → flags.no_acme ≡ false
      → flags.public_ip ≢ []
      → IsManageable s.acme
      → (w : W) × (start_all cm rt is_ipv4 load_key_pair all_start none flags s
          ≡ (goes_on tt, record s { acme = w; acts = tls_acts acme_tls s.acts }))
  unfolding start_all start_api shut_down_all
  start_all-acme s certless on given ready =
      let s1 : RunState W C Hello = record s { acts = plain_acts s.acts } in
      let (w, same) = start_acme-done s1 ready in
      let addressed : (acme_mode flags && str_eq flags.public_ip []) ≡ false =
        ground (arith, str_eq_nil flags.public_ip given) in
      let tls : (acme_mode flags || manual_tls flags) ≡ true = ground arith in
      (w, rw (addressed, start_all, start_https-acme s1 certless on ∙ same, tls) refl)

  -- The mode of the flags, with the TLS configuration that it serves with: a certificate and a key
  -- that can be loaded; neither of them and no ACME; or ACME, with a public address that can be read
  -- and names that certmagic takes.
  pub data IsServing (w : W) : Option (ServerTls C Hello) → Type 0 where
    by_certificate :
        (c : C)
        → manual_tls flags ≡ true
        → load_key_pair flags.tls_cert flags.tls_key ≡ some c
        → IsServing w (some (manual c))
    in_clear : manual_tls flags ≡ false → flags.no_acme ≡ true → IsServing w none
    by_acme :
        manual_tls flags ≡ false
        → flags.no_acme ≡ false
        → flags.public_ip ≢ []
        → IsManageable w
        → IsServing w (some acme_tls)

  -- What is done from the start to the end, the last act first.
  abbrev pub all_acts : Option (ServerTls C Hello) → List (Act C Hello) → List (Act C Hello)
  all_acts none acts = dns_shut_down ∷ shut_down http ∷ plain_acts acts
  all_acts (some tls) acts = tls_acts tls acts

  -- Where every listener starts, the mode decides what is served. HTTP and DNS come first. With a
  -- certificate that was loaded, HTTPS and then the API are served with it; in the ACME mode, with
  -- the certificates of the domain; without TLS, neither is served. Then every server that was
  -- started is shut down, HTTPS first and DNS last, and the command ends with no error.
  pub start_all-modes :
      (s : RunState W C Hello) (tls : Option (ServerTls C Hello))
      → IsServing s.acme tls
      → (w : W) × (start_all cm rt is_ipv4 load_key_pair all_start none flags s
          ≡ (goes_on tt, record s { acme = w; acts = all_acts tls s.acts }))
  start_all-modes s _ (by_certificate c certified loaded) =
      (s.acme, start_all-manual s c certified loaded)
  start_all-modes s _ (in_clear certless off) = (s.acme, start_all-plain s certless off)
  start_all-modes s _ (by_acme certless on given ready) = start_all-acme s certless on given ready
