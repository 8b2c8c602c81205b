-- ===== src/Cmd/Run/Secure.antt =====
-- How the API is served, whatever fails: `runServer` of cmd/oastrix/server.go.
use oastrix.Server.Lifecycle.{use_tls, ServeError}
use oastrix.Cmd.Run.{
  started_with, ◌>>=◌, not_started, dns_not_started, load_certificate, generate_key,
  public_ip_required, goes_on, start_server, stops, ServerTls, acme_result, database_result, go_on,
  started, Act, Name, Ran, Run, RunState, ServerFlags, http, https, api, manual, key_printed,
  shut_down, dns_shut_down, RunError, act, stop, give, on_database, on_acme, made_key, first_key,
  not_failed, dns_not_failed, shut_down_if, is_some_tls, start_api, shut_down_all, managed_tls,
  manual_tls, acme_mode, acme_manager,
}
use oastrix.Cmd.Run.Sequence.{loaded_tls, run_server, start_acme, start_all, start_https}
use oastrix.Prelude.{
  ℕ, ◌≡◌, refl, Str, Bool, true, false, ◌&&◌, ◌||◌, Option, none, some, ◌==◌, [], All, str_eq,
  if◌then◌else◌, if_both,
}
use oastrix.Failure.{Result, ok, err}
use oastrix.Runtime.{Runtime}
use oastrix.Auth.{NewKey, generate_api_key}
use oastrix.Acme.Manager.{Manager, AcmeError, Certmagic, manage, manage_ip, tls_config}
use oastrix.Db.{Db, Exec}
use oastrix.Db.ApiKeys.{count_api_keys, create_api_key}
use oastrix.Server.DnsStart.{StartError}

module _ {C Hello : Type 0} where
  -- The API listens with TLS, and HTTP without.
  abbrev pub IsSecure : Act C Hello → Type 0
  IsSecure (started api cfg) = use_tls cfg ≡ true
  IsSecure (started http cfg) = use_tls cfg ≡ false
  IsSecure a = Unit

module _ {W C Hello : Type 0} where
  abbrev pub AreSecure : RunState W C Hello → Type 0
  AreSecure s = All IsSecure s.acts

  -- A part keeps this.
  record Keeps {A : Type 0} (m : Run (RunState W C Hello) A) : Type 0 where
    kept : (s : RunState W C Hello) → AreSecure s → AreSecure (m s).1

  go_on-AreSecure :
      {A B : Type 0} (m : Ran A × RunState W C Hello) (k : A → Run (RunState W C Hello) B)
      → AreSecure m.1
      → ((a : A) → Keeps (k a))
      → AreSecure (go_on m k).1
  go_on-AreSecure (stops e, s) k h step = h
  go_on-AreSecure (goes_on a, s) k h step = (step a).kept s h

  then-Keeps :
      {A B : Type 0} (m : Run (RunState W C Hello) A) (k : A → Run (RunState W C Hello) B)
      → Keeps m
      → ((a : A) → Keeps (k a))
      → Keeps (m >>= k)
  then-Keeps m k h step = record {
    kept = λ s secure. go_on-AreSecure (m s) k (h.kept s secure) step;
  }

  if-Keeps :
      {A : Type 0} (b : Bool) (m n : Run (RunState W C Hello) A)
      → Keeps m
      → Keeps n
      → Keeps (if b then m else n)
  if-Keeps b m n h k = if_both Keeps b m n h k

  give-Keeps : {A : Type 0} (a : A) → Keeps (give a)
  give-Keeps a = record { kept = λ s h. h }

  stop-Keeps : {A : Type 0} (e : RunError) → Keeps {A = A} (stop e)
  stop-Keeps e = record { kept = λ s h. h }

  act-Keeps : (a : Act C Hello) → IsSecure a → Keeps (act a)
  act-Keeps a secure = record { kept = λ s h. (secure, h) }

  database_result-AreSecure :
      {A : Type 0} (s : RunState W C Hello) (m : Result A × Db)
      → AreSecure s
      → AreSecure (database_result s m).1
  database_result-AreSecure s (ok a, db) h = h
  database_result-AreSecure s (err e, db) h = h

  on_database-Keeps : {A : Type 0} (m : Exec A) → Keeps (on_database m)
  on_database-Keeps m = record { kept = λ s h. database_result-AreSecure s (m s.db) h }

  acme_result-AreSecure :
      (s : RunState W C Hello) (m : Option AcmeError × (Manager × W))
      → AreSecure s
      → AreSecure (acme_result s m).1
  acme_result-AreSecure s (none, (m, w)) h = h
  acme_result-AreSecure s (some e, (m, w)) h = h

  on_acme-Keeps : (m : W → Option AcmeError × (Manager × W)) → Keeps (on_acme m)
  on_acme-Keeps m = record { kept = λ s h. acme_result-AreSecure s (m s.acme) h }

  not_failed-Keeps : (name : Name) (o : Option ServeError) → Keeps (not_failed name o)
  not_failed-Keeps name none = give-Keeps tt
  not_failed-Keeps name (some e) = stop-Keeps (not_started name e)

  dns_not_failed-Keeps : (o : Option StartError) → Keeps (dns_not_failed o)
  dns_not_failed-Keeps none = give-Keeps tt
  dns_not_failed-Keeps (some e) = stop-Keeps (dns_not_started e)

  start_server-Keeps :
      (startup : Name → Option ServeError) (name : Name) (port : ℕ)
      (tls : Option (ServerTls C Hello))
      → IsSecure (started_with name port tls)
      → Keeps (start_server startup name port tls)
  start_server-Keeps startup name port tls secure =
      then-Keeps (act (started_with name port tls)) (λ u. not_failed name (startup name))
        (act-Keeps (started_with name port tls) secure) (λ u. not_failed-Keeps name (startup name))

  made_key-Keeps : (o : Option NewKey) → Keeps (made_key o)
  made_key-Keeps none = stop-Keeps generate_key
  made_key-Keeps (some x) =
      then-Keeps (on_database (create_api_key x.prefix x.hash))
        (λ id. act (key_printed x.display_key)) (on_database-Keeps _)
        (λ id. act-Keeps (key_printed x.display_key) tt)

  first_key-Keeps :
      (sha256 : Str → Str) (prefix_read secret_read : Option Str)
      → Keeps (first_key sha256 prefix_read secret_read)
  unfolding first_key
  first_key-Keeps sha256 prefix_read secret_read =
      then-Keeps (on_database count_api_keys) _ (on_database-Keeps count_api_keys) (λ count.
        if-Keeps (count == 0) (made_key (generate_api_key sha256 prefix_read secret_read)) (give tt)
          (made_key-Keeps (generate_api_key sha256 prefix_read secret_read)) (give-Keeps tt))

  start_api-Keeps :
      (startup : Name → Option ServeError) (port : ℕ) (tls : Option (ServerTls C Hello))
      → Keeps (start_api startup port tls)
  unfolding start_api use_tls
  start_api-Keeps startup port none = give-Keeps tt
  start_api-Keeps startup port (some tls) = start_server-Keeps startup api port (some tls) refl

  shut_down_if-Keeps : (b : Bool) (name : Name) → Keeps (shut_down_if b name)
  shut_down_if-Keeps true name = act-Keeps (shut_down name) tt
  shut_down_if-Keeps false name = give-Keeps tt

  shut_down_all-Keeps : (b c : Bool) → Keeps (shut_down_all b c)
  unfolding shut_down_all
  shut_down_all-Keeps b c = then-Keeps (shut_down_if b https) _ (shut_down_if-Keeps b https) (λ u.
      then-Keeps (act (shut_down http)) _ (act-Keeps (shut_down http) tt) (λ v.
        then-Keeps (shut_down_if c api) _ (shut_down_if-Keeps c api)
          (λ w. act-Keeps dns_shut_down tt)))

  module _ (cm : Certmagic W C Hello) (rt : Runtime) (is_ipv4 : Str → Bool)
      (load_key_pair : Str → Str → Option C) (startup : Name → Option ServeError)
      (dns_startup : Option StartError) (flags : ServerFlags) where
    start_acme-Keeps : Keeps (start_acme cm rt is_ipv4 load_key_pair startup dns_startup flags)
    unfolding start_acme
    start_acme-Keeps =
        then-Keeps (on_acme (manage cm (acme_manager flags))) _ (on_acme-Keeps _) (λ m.
          then-Keeps (start_server startup https flags.https_port (managed_tls (tls_config cm m))) _
            (start_server-Keeps startup https flags.https_port (managed_tls (tls_config cm m)) tt)
            (λ u.
              then-Keeps (on_acme (manage_ip cm rt.parse_ip is_ipv4 m)) _ (on_acme-Keeps _)
                (λ m'. give-Keeps (managed_tls (tls_config cm m)))))

    loaded_tls-Keeps :
        (o : Option C) → Keeps (loaded_tls cm rt is_ipv4 load_key_pair startup dns_startup flags o)
    loaded_tls-Keeps none = stop-Keeps load_certificate
    loaded_tls-Keeps (some c) =
        then-Keeps (start_server startup https flags.https_port (some (manual c))) _
          (start_server-Keeps startup https flags.https_port (some (manual c)) tt)
          (λ u. give-Keeps (some (manual c)))

    start_https-Keeps : Keeps (start_https cm rt is_ipv4 load_key_pair startup dns_startup flags)
    unfolding start_https
    start_https-Keeps = if-Keeps (acme_mode flags) _ _ start_acme-Keeps (
        if-Keeps (manual_tls flags) _ _
          (loaded_tls-Keeps (load_key_pair flags.tls_cert flags.tls_key)) (give-Keeps none))

    start_all-Keeps : Keeps (start_all cm rt is_ipv4 load_key_pair startup dns_startup flags)
    unfolding start_all use_tls
    start_all-Keeps =
        then-Keeps _ _
          (if-Keeps (acme_mode flags && str_eq flags.public_ip []) _ _
            (stop-Keeps public_ip_required) (give-Keeps tt))
          (λ u.
            then-Keeps (start_server startup http flags.http_port none) _
              (start_server-Keeps startup http flags.http_port none refl)
              (λ u. then-Keeps (act _) _ (act-Keeps _ tt) (λ u.
                then-Keeps (dns_not_failed dns_startup) _ (dns_not_failed-Keeps dns_startup) (λ u.
                  then-Keeps _ _ start_https-Keeps (λ tls.
                    then-Keeps (start_api startup flags.api_port tls) _
                      (start_api-Keeps startup flags.api_port tls)
                      (λ u.
                        shut_down_all-Keeps (acme_mode flags || manual_tls flags)
                          (is_some_tls tls)))))))

    -- Whatever fails and whatever the flags, the API is started with TLS or not at all, and the HTTP
    -- server without.
    pub run_server-AreSecure :
        (prefix_read secret_read : Option Str) (s : RunState W C Hello)
        → s.acts ≡ []
        → (s' : RunState W C Hello) × ((run_server cm rt is_ipv4 load_key_pair startup dns_startup
              flags prefix_read secret_read
              (some s)).1
            ≡ some s')
          × AreSecure s'
    unfolding run_server
    run_server-AreSecure prefix_read secret_read s fresh =
        let run =
          then-Keeps (first_key rt.sha256 prefix_read secret_read)
            (λ u. start_all cm rt is_ipv4 load_key_pair startup dns_startup flags)
            (first_key-Keeps rt.sha256 prefix_read secret_read) (λ u. start_all-Keeps) in
        (_, refl, run.kept s (rw fresh tt))
