-- ===== src/Tests/Run.antt =====
-- The server command with a certificate, and with its first key; the choice of a certificate.
use oastrix.Cmd.Run.Sequence.{run_server, start_all}
use oastrix.Prelude.{
  if◌then◌else◌, str_eq, ℕ, suc, ◌≡◌, refl, Str, bytes, true, false, Option, none, some, [], ◌∷◌,
  ◌++◌,
}
use oastrix.Db.{Db}
use oastrix.Db.ApiKeys.{count_active, find_api_key}
use oastrix.Acme.Manager.{Manager, Config, Certmagic, certificate, TlsConfig, tls_config}
use oastrix.Acme.Manager.Routing.{IsRouted, tls_config-IsRouted}
use oastrix.Server.Api.Access.{authenticate, bearer}
use oastrix.Server.Api.Flow.{next}
use oastrix.Server.Lifecycle.{ServeError, listen_failed}
use oastrix.Cmd.Run.{ServerFlags, Name, https, manual, key_printed, RunState, goes_on, first_key}
use oastrix.Cmd.Run.Modes.{acme_tls, IsServing, all_acts, start_all-modes}
use oastrix.Cmd.Run.Secure.{AreSecure, run_server-AreSecure}
use oastrix.Cmd.Run.Keys.{first_key-lets_in}
use oastrix.Tests.Data.{rt, domain, ip, db, prefix_bytes, secret_raw, made_key, made}

-- A certmagic that takes all names and has certificate 1 for names and 2 for the address. A client's
-- greeting is the name that it asks for.
abbrev certmagic : Certmagic ℕ ℕ Str
certmagic = record {
  staging_ca = bytes "https://staging.example/";
  production_ca = bytes "https://production.example/";
  new_storage = λ w. (true, suc w);
  manage_async = λ config names w. (true, suc w);
  get_certificate =
      λ config hello. if config.issuer.disable_tls_alpn then certificate 2 else certificate 1;
  next_protos = bytes "h2" ∷ [];
  server_name = λ hello. hello;
}

abbrev flags : ServerFlags
flags = record {
  http_port = 80;
  https_port = 443;
  api_port = 8443;
  dns_port = 53;
  tls_cert = bytes "cert.pem";
  tls_key = bytes "key.pem";
  domain = domain;
  no_acme = false;
  acme_email = [];
  acme_staging = false;
  public_ip = ip;
}

abbrev load : Str → Str → Option ℕ
load cert key = some 7

abbrev fresh : RunState ℕ ℕ Str
fresh = record { db = record db { api_keys = [] }; acme = 0; acts = [] }

start_all-modes_example :
    (w : ℕ) × (start_all certmagic rt (λ a. true) load (λ name. none) none flags fresh ≡ (
      goes_on tt,
      record fresh {
        acme = w;
        acts = all_acts certmagic rt (λ a. true) load flags (some (manual 7)) [];
      },
    ))
unfolding str_eq
start_all-modes_example =
    start_all-modes certmagic rt (λ a. true) load flags fresh (some (manual 7))
      (IsServing.by_certificate 7 refl refl)

-- The flags of the ACME mode, which can be served too.
abbrev acme_flags : ServerFlags
acme_flags = record flags { tls_cert = []; tls_key = [] }

serves_by_acme :
    IsServing certmagic rt
      (λ a. true)
      load
      acme_flags
      0
      (some (acme_tls certmagic rt (λ a. true) load acme_flags))
unfolding str_eq
serves_by_acme =
    IsServing.by_acme refl refl (λ e. cc)
      (record { ip = acme_flags.public_ip; read = refl; made = refl; taken = refl })

-- HTTPS cannot listen.
abbrev https_fails : Name → Option ServeError
https_fails https = some (listen_failed (bytes "address already in use"))
https_fails _ = none

run_server-AreSecure_example :
    (s' : RunState ℕ ℕ Str) × ((run_server certmagic rt
        (λ a. true)
        load
        https_fails
        none
        flags
        (some prefix_bytes)
        (some secret_raw)
        (some fresh)).1
      ≡ some s')
    × AreSecure s'
run_server-AreSecure_example =
    run_server-AreSecure certmagic rt (λ a. true) load https_fails none flags (some prefix_bytes)
      (some secret_raw) fresh refl

first_key-lets_in_example :
    (db' : Db) × (first_key rt.sha256 (some prefix_bytes) (some secret_raw) fresh
      ≡ (goes_on tt, record fresh { db = db'; acts = key_printed made_key.display_key ∷ [] }))
    × ((authenticate rt.sha256 (bearer ++ made_key.display_key) db').0 ≡ next 2)
    × (first_key rt.sha256 (some prefix_bytes) (some secret_raw) (record fresh { db = db' })
        ≡ (goes_on tt, record fresh { db = db' }))
unfolding count_active find_api_key
first_key-lets_in_example =
    first_key-lets_in rt.sha256 fresh refl prefix_bytes secret_raw made_key (some prefix_bytes)
      (some secret_raw) refl refl made refl

abbrev names : Config
names = record {
  stored = true;
  issuer = record {
    ca = bytes "https://production.example/";
    email = [];
    agreed = true;
    profile = [];
    disable_tls_alpn = false;
    dns01 = none;
  };
}

abbrev address : Config
address = record names { issuer = record names.issuer { disable_tls_alpn = true } }

abbrev manager : Manager
manager = record {
  domain = domain;
  email = [];
  public_ip = ip;
  staging = false;
  txt_store = none;
  dns_config = some names;
  ip_config = some address;
  storage = true;
}

tls_config-IsRouted_example :
    (t : TlsConfig ℕ Str) × (tls_config certmagic manager ≡ some t)
    × IsRouted certmagic manager names t
tls_config-IsRouted_example = tls_config-IsRouted certmagic manager names refl
