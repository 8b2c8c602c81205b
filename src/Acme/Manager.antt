-- ===== src/Acme/Manager.antt =====
-- The manager of certificates: internal/acme/manager.go. What certmagic does is a parameter: `W` is
-- the state of its storage and of its background work, `C` its certificates, `Hello` the greeting of
-- a client. The global loggers are left out.
pub mod Routing
pub mod Managing
use oastrix.Prelude.{
  ℕ, Str, bytes, Bool, true, false, ◌||◌, Option, none, some, List, [], ◌∷◌, ◌++◌, if◌then◌else◌,
  ◌==◌, str_eq, trim,
}
use oastrix.Runtime.{Runtime}
use oastrix.Acme.TxtStore.{TxtStore}

-- `certmagic.ACMEIssuer`. `dns01` is the store behind the provider of the DNS-01 solver.
pub record Issuer : Type 0 where
  pub ca : Str
  pub email : Str
  pub agreed : Bool
  pub profile : Str
  pub disable_tls_alpn : Bool
  pub dns01 : Option TxtStore

-- `certmagic.Config`: whether it has the manager's storage, and its issuer.
pub record Config : Type 0 where
  pub stored : Bool
  pub issuer : Issuer

-- The database and the logger are left out; `storage` tells whether the storage was made.
pub record Manager : Type 0 where
  pub domain : Str
  pub email : Str
  pub public_ip : Str
  pub staging : Bool
  pub txt_store : Option TxtStore
  pub dns_config : Option Config
  pub ip_config : Option Config
  pub storage : Bool

unfoldable pub new_manager : Str → Str → Bool → Option TxtStore → Str → Manager
new_manager domain email staging store public_ip = record {
  domain = domain;
  email = email;
  public_ip = public_ip;
  staging = staging;
  txt_store = store;
  dns_config = none;
  ip_config = none;
  storage = false;
}

pub data AcmeError : Type 0 where
  create_storage : AcmeError
  manage_certificates : Str → AcmeError
  invalid_public_ip : Str → AcmeError

-- What `GetCertificate` gives: a certificate, none and no error, or an error.
pub data Certified (C : Type 0) : Type 0 where
  certificate : C → Certified C
  no_certificate : Certified C
  no_match : Certified C

-- What the program calls of certmagic, and the two URLs that it takes from it. `manage_async` says
-- whether the names were taken.
pub record Certmagic (W C Hello : Type 0) : Type 0 where
  pub staging_ca : Str
  pub production_ca : Str
  pub new_storage : W → Bool × W
  pub manage_async : Config → List Str → W → Bool × W
  pub get_certificate : Config → Hello → Certified C
  pub next_protos : List Str
  pub server_name : Hello → Str

-- `tls.Config`, as far as the program makes one.
pub record TlsConfig (C Hello : Type 0) : Type 0 where
  pub get_certificate : Hello → Certified C
  pub next_protos : List Str

-- The cutset "[]".
abbrev pub is_bracket : ℕ → Bool
is_bracket c = c == b'[' || c == b']'

-- The certificate, if there is one and no error.
abbrev pub prefer : {C : Type 0} → Certified C → Certified C → Certified C
prefer (certificate c) other = certificate c
prefer no_certificate other = other
prefer no_match other = other

module _ {W C Hello : Type 0} (cm : Certmagic W C Hello) where
  unfoldable pub ca_url : Bool → Str
  ca_url staging = if staging then cm.staging_ca else cm.production_ca

  abbrev pub dns_issuer : Manager → Issuer
  dns_issuer m = record {
    ca = ca_url m.staging;
    email = m.email;
    agreed = true;
    profile = [];
    disable_tls_alpn = false;
    dns01 = m.txt_store;
  }

  abbrev pub ip_issuer : Manager → Issuer
  ip_issuer m = record {
    ca = ca_url m.staging;
    email = m.email;
    agreed = true;
    profile = bytes "shortlived";
    disable_tls_alpn = true;
    dns01 = none;
  }

  -- `newBaseConfig`, with the issuer that is put into it.
  abbrev pub base_config : Manager → Issuer → Config
  base_config m issuer = record { stored = m.storage; issuer = issuer }

  abbrev pub manage_names : Manager → Bool × W → Option AcmeError × (Manager × W)
  manage_names m (true, w) = (none, (m, w))
  manage_names m (false, w) = (some (manage_certificates m.domain), (m, w))

  abbrev pub with_storage : Manager → Bool × W → Option AcmeError × (Manager × W)
  with_storage m (false, w) = (some create_storage, (m, w))
  with_storage m (true, w) =
      let stored = record m { storage = true } in
      let config = base_config stored (dns_issuer stored) in
      manage_names (record stored { dns_config = some config })
        (cm.manage_async config (m.domain ∷ (bytes "*." ++ m.domain) ∷ []) w)

  unfoldable pub manage : Manager → W → Option AcmeError × (Manager × W)
  unfolding ca_url
  manage m w = with_storage m (cm.new_storage w)

  -- The statements after the address was found to be of IPv4; that the names were not taken is only
  -- logged.
  abbrev pub manage_ipv4 : Manager → W → Option AcmeError × (Manager × W)
  manage_ipv4 m w =
      let config = base_config m (ip_issuer m) in
      let (taken, w') = cm.manage_async config (m.public_ip ∷ []) w in
      (none, (record m { ip_config = some config }, w'))

  -- `net.ParseIP` and `To4` are arguments.
  unfoldable pub manage_ip :
      (Str → Option Str) → (Str → Bool) → Manager → W → Option AcmeError × (Manager × W)
  unfolding ca_url
  manage_ip parse_ip is_ipv4 m w =
      if str_eq m.public_ip [] then (none, (m, w)) else elim (parse_ip m.public_ip) [
        | none ↦ (some (invalid_public_ip m.public_ip), (m, w))
        | some ip ↦ if is_ipv4 ip then manage_ipv4 m w else (none, (m, w))
      ]

  -- `config.TLSConfig()` of certmagic.
  abbrev pub config_tls : Config → TlsConfig C Hello
  config_tls config = record {
    get_certificate = cm.get_certificate config;
    next_protos = cm.next_protos;
  }

  -- The function that chooses a certificate by the name that the client asks for.
  abbrev pub route_certificate : Manager → Config → Config → Hello → Certified C
  route_certificate m dns ip hello =
      let sni = trim is_bracket (cm.server_name hello) in
      if str_eq sni [] || str_eq sni m.public_ip
      then prefer (cm.get_certificate ip hello) (cm.get_certificate dns hello)
      else cm.get_certificate dns hello

  unfoldable pub tls_config : Manager → Option (TlsConfig C Hello)
  tls_config m = elim m.dns_config [
    | none ↦ none
    | some dns ↦ elim m.ip_config [
      | none ↦ some (config_tls dns)
      | some ip ↦ some (record {
        get_certificate = route_certificate m dns ip;
        next_protos = bytes "h2" ∷ bytes "http/1.1" ∷ bytes "acme-tls/1" ∷ [];
      })
    ]
  ]
