-- ===== src/Acme/Manager/Routing.antt =====
-- Which certificate a client gets: `TLSConfig` of internal/acme/manager.go.
use oastrix.Prelude.{
  ◌≡◌, ◌≢◌, refl, ◌||◌, some, [], ◌∷◌, bytes, ◌⊎◌, arith, if_both, str_eq, str_eq_iff, trim,
  Option-cases, inl, inr,
}
use oastrix.Acme.Manager.{
  Config, Manager, Certified, certificate, no_certificate, no_match, Certmagic, TlsConfig,
  is_bracket, prefer, config_tls, route_certificate, tls_config,
}

-- What is promised of the configuration: who asks for another name than the address gets what the
-- certificates of the domain answer, and who asks for the address, or for no name, gets the
-- certificate of the address where there is one; and wherever the domain has a certificate, there
-- is one to get.
pub record IsRouted {W C Hello : Type 0} (cm : Certmagic W C Hello) (m : Manager) (dns : Config)
    (t : TlsConfig C Hello) : Type 0 where
  pub named :
      (hello : Hello)
      → trim is_bracket (cm.server_name hello) ≢ []
      → trim is_bracket (cm.server_name hello) ≢ m.public_ip
      → t.get_certificate hello ≡ cm.get_certificate dns hello
  pub addressed :
      (hello : Hello) (ip : Config) (c : C)
      → (trim is_bracket (cm.server_name hello) ≡ [])
        ⊎ (trim is_bracket (cm.server_name hello) ≡ m.public_ip)
      → m.ip_config ≡ some ip
      → cm.get_certificate ip hello ≡ certificate c
      → t.get_certificate hello ≡ certificate c
  pub available :
      (hello : Hello) (c : C)
      → cm.get_certificate dns hello ≡ certificate c
      → (c' : C) × (t.get_certificate hello ≡ certificate c')

module _ {W C Hello : Type 0} (cm : Certmagic W C Hello) where
  prefer-available :
      (x y : Certified C) (c : C) → y ≡ certificate c → (c' : C) × (prefer x y ≡ certificate c')
  prefer-available (certificate d) y c h = (d, refl)
  prefer-available no_certificate y c h = (c, h)
  prefer-available no_match y c h = (c, h)

  IsRouted-both :
      (m : Manager) (dns ip : Config)
      → m.ip_config ≡ some ip
      → IsRouted cm m dns (record {
        get_certificate = route_certificate cm m dns ip;
        next_protos = bytes "h2" ∷ bytes "http/1.1" ∷ bytes "acme-tls/1" ∷ [];
      })
  IsRouted-both m dns ip here = record {
    named = λ hello other apart. ground (
      arith,
      other,
      apart,
      str_eq_iff (trim is_bracket (cm.server_name hello)) [],
      str_eq_iff (trim is_bracket (cm.server_name hello)) m.public_ip,
    );
    addressed = λ hello x c asks set found. ground (
      arith,
      asks,
      found,
      str_eq_iff (trim is_bracket (cm.server_name hello)) [],
      str_eq_iff (trim is_bracket (cm.server_name hello)) m.public_ip,
    );
    available = λ hello c found.
        let sni = trim is_bracket (cm.server_name hello) in
        let dns' = cm.get_certificate dns hello in
        let both = prefer (cm.get_certificate ip hello) dns' in
        if_both (λ x. (c' : C) × (x ≡ certificate c')) (str_eq sni [] || str_eq sni m.public_ip)
          both dns' (prefer-available (cm.get_certificate ip hello) dns' c found) (c, found);
  }

  -- Where the certificates of the domain are managed, there is a TLS configuration. With it, who asks
  -- for another name than the public address gets what the certificates of the domain answer, who
  -- asks for the address, or for no name, gets the certificate of the address where there is one, and
  -- whoever the domain has a certificate for gets a certificate.
  pub tls_config-IsRouted :
      (m : Manager) (dns : Config)
      → m.dns_config ≡ some dns
      → (t : TlsConfig C Hello) × (tls_config cm m ≡ some t) × IsRouted cm m dns t
  unfolding tls_config
  tls_config-IsRouted m dns managed = elim (Option-cases m.ip_config) [
    | inl unset ↦ (
      config_tls cm dns,
      rw (managed, unset) refl,
      record {
        named = λ hello other apart. refl;
        addressed = λ hello x c asks set found. cc;
        available = λ hello c found. (c, found);
      },
    )
    | inr (ip, set) ↦ (
      record {
        get_certificate = route_certificate cm m dns ip;
        next_protos = bytes "h2" ∷ bytes "http/1.1" ∷ bytes "acme-tls/1" ∷ [];
      },
      rw (managed, set) refl,
      IsRouted-both m dns ip set,
    )
  ]
