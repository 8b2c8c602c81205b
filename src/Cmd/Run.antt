-- ===== src/Cmd/Run.antt =====
-- `runServer` of cmd/oastrix/server.go: what it does, and its steps one by one; they are put together
-- in Cmd.Run.Sequence.
-- What it does to the outside is a list of acts. Whether a listener starts is a parameter, as are
-- certmagic, the loading of a certificate and what the random source delivers; `Db` is what the
-- opened database holds. The plugins' `Init` cannot fail, closing the database at the end is left
-- out, and the signal comes when the listeners run.
pub mod Sequence
pub mod Modes
pub mod Keys
pub mod Secure
use oastrix.Prelude.{
  ℕ, Str, bytes, Bool, true, false, not, ◌&&◌, ◌||◌, Option, none, some, List, [], ◌∷◌, ◌++◌,
  if◌then◌else◌, ◌==◌, str_eq,
}
use oastrix.Failure.{Error, Result, ok, err}
use oastrix.Runtime.{Runtime}
use oastrix.Auth.{NewKey, generate_api_key}
use oastrix.Acme.TxtStore.{TxtStore, new_txt_store}
use oastrix.Acme.Manager.{
  Manager, AcmeError, Certmagic, TlsConfig, new_manager, manage, manage_ip, tls_config,
}
use oastrix.Db.{Db, Exec}
use oastrix.Db.ApiKeys.{count_api_keys, create_api_key}
use oastrix.Server.Lifecycle.{ServeError, Config, default_server_config}
use oastrix.Server.Dns.{DnsServer}
use oastrix.Server.DnsStart.{StartError}
use oastrix.Cmd.Server.DnsRecording.{dns_server}

-- `serverFlags`, without the path of the database.
pub record ServerFlags : Type 0 where
  pub http_port : ℕ
  pub https_port : ℕ
  pub api_port : ℕ
  pub dns_port : ℕ
  pub tls_cert : Str
  pub tls_key : Str
  pub domain : Str
  pub no_acme : Bool
  pub acme_email : Str
  pub acme_staging : Bool
  pub public_ip : Str

pub data Name : Type 0 where
  http https api : Name

-- `tlsConfig`: the one of the ACME manager, or one with the certificate that was loaded.
pub data ServerTls (C Hello : Type 0) : Type 0 where
  managed : TlsConfig C Hello → ServerTls C Hello
  manual : C → ServerTls C Hello

pub data Act (C Hello : Type 0) : Type 0 where
  key_printed : Str → Act C Hello
  started : Name → Config (ServerTls C Hello) → Act C Hello
  dns_started : DnsServer → ℕ → Act C Hello
  shut_down : Name → Act C Hello
  dns_shut_down : Act C Hello

pub data RunError : Type 0 where
  open_database generate_key public_ip_required load_certificate : RunError
  database : Error → RunError
  not_started : Name → ServeError → RunError
  dns_not_started : StartError → RunError
  certificates : AcmeError → RunError

-- The database, the state of certmagic, and what was done so far, the last act first.
pub record RunState (W C Hello : Type 0) : Type 0 where
  pub db : Db
  pub acme : W
  pub acts : List (Act C Hello)

pub data Ran (A : Type 0) : Type 0 where
  goes_on : A → Ran A
  stops : RunError → Ran A

-- A part of the command: it goes on with a value, or stops with an error.
abbrev pub Run : Type 0 → Type 0 → Type 0
Run S A = S → Ran A × S

abbrev pub go_on : {S A B : Type 0} → Ran A × S → (A → Run S B) → Ran B × S
go_on (stops e, s) k = (stops e, s)
go_on (goes_on a, s) k = k a s

infixl 5 ◌>>=◌ ◌>>◌
abbrev pub ◌>>=◌ : {S A B : Type 0} → Run S A → (A → Run S B) → Run S B
◌>>=◌ m k s = go_on (m s) k

abbrev pub ◌>>◌ : {S B : Type 0} → Run S (Unit {0}) → Run S B → Run S B
m >> k = m >>= λ _. k

abbrev pub give : {S A : Type 0} → A → Run S A
give a s = (goes_on a, s)

abbrev pub stop : {S A : Type 0} → RunError → Run S A
stop e s = (stops e, s)

abbrev pub manual_tls : ServerFlags → Bool
manual_tls flags = not (str_eq flags.tls_cert []) && not (str_eq flags.tls_key [])

abbrev pub acme_mode : ServerFlags → Bool
acme_mode flags = not (manual_tls flags) && not flags.no_acme

abbrev pub txt_store : ServerFlags → Option TxtStore
txt_store flags = if acme_mode flags then some new_txt_store else none

-- `NewManager`, with the flags.
abbrev pub acme_manager : ServerFlags → Manager
acme_manager flags =
    new_manager flags.domain flags.acme_email flags.acme_staging (txt_store flags) flags.public_ip

module _ {C Hello : Type 0} where
  abbrev pub is_some_tls : Option (ServerTls C Hello) → Bool
  is_some_tls none = false
  is_some_tls (some t) = true

  abbrev pub managed_tls : Option (TlsConfig C Hello) → Option (ServerTls C Hello)
  managed_tls none = none
  managed_tls (some t) = some (managed t)

-- A managed server is made with the default configuration and the TLS configuration, and started.
abbrev pub started_with : {C Hello : Type 0} → Name → ℕ → Option (ServerTls C Hello) → Act C Hello
started_with name port tls = started name (record (default_server_config port) { tls_config = tls })

module _ {W C Hello : Type 0} where
  abbrev pub act : Act C Hello → Run (RunState W C Hello) (Unit {0})
  act a s = (goes_on tt, record s { acts = a ∷ s.acts })

  abbrev pub database_result :
      {A : Type 0} → RunState W C Hello → Result A × Db → Ran A × RunState W C Hello
  database_result s (ok a, db) = (goes_on a, record s { db = db })
  database_result s (err e, db) = (stops (database e), record s { db = db })

  -- An operation on the database, whose error is returned.
  abbrev pub on_database : {A : Type 0} → Exec A → Run (RunState W C Hello) A
  on_database m s = database_result s (m s.db)

  abbrev pub acme_result :
      RunState W C Hello → Option AcmeError × (Manager × W) → Ran Manager × RunState W C Hello
  acme_result s (none, (m, w)) = (goes_on m, record s { acme = w })
  acme_result s (some e, (m, w)) = (stops (certificates e), record s { acme = w })

  -- An operation of the ACME manager, which gives the manager that it leaves.
  abbrev pub on_acme : (W → Option AcmeError × (Manager × W)) → Run (RunState W C Hello) Manager
  on_acme m s = acme_result s (m s.acme)

  abbrev pub made_key : Option NewKey → Run (RunState W C Hello) (Unit {0})
  made_key none = stop generate_key
  made_key (some k) = do
    id ← on_database (create_api_key k.prefix k.hash)
    act (key_printed k.display_key)

  -- The API key of the first start, where no active one is stored; the lines around it that are
  -- printed are left out.
  unfoldable pub first_key :
      (Str → Str) → Option Str → Option Str → Run (RunState W C Hello) (Unit {0})
  first_key sha256 prefix_read secret_read = do
    count ← on_database count_api_keys
    if count == 0 then made_key (generate_api_key sha256 prefix_read secret_read) else give tt

  abbrev pub not_failed : Name → Option ServeError → Run (RunState W C Hello) (Unit {0})
  not_failed name none = give tt
  not_failed name (some e) = stop (not_started name e)

  -- `Start` and `WaitForStartup` of a new `ManagedServer`.
  abbrev pub start_server :
      (Name → Option ServeError)
      → Name
      → ℕ
      → Option (ServerTls C Hello)
      → Run (RunState W C Hello) (Unit {0})
  start_server startup name port tls = do
    act (started_with name port tls)
    not_failed name (startup name)

  abbrev pub dns_not_failed : Option StartError → Run (RunState W C Hello) (Unit {0})
  dns_not_failed none = give tt
  dns_not_failed (some e) = stop (dns_not_started e)

  -- The shutdown of a server that is not nil.
  abbrev pub shut_down_if : Bool → Name → Run (RunState W C Hello) (Unit {0})
  shut_down_if true name = act (shut_down name)
  shut_down_if false name = give tt

  -- The API server, which is started with TLS only.
  unfoldable pub start_api :
      (Name → Option ServeError)
      → ℕ
      → Option (ServerTls C Hello)
      → Run (RunState W C Hello) (Unit {0})
  start_api startup port none = give tt
  start_api startup port (some tls) = start_server startup api port (some tls)

  -- From the signal on: `https` tells whether there is an HTTPS server.
  unfoldable pub shut_down_all : Bool → Bool → Run (RunState W C Hello) (Unit {0})
  shut_down_all https_server api_server = do
    shut_down_if https_server https
    act (shut_down http)
    shut_down_if api_server api
    act dns_shut_down
