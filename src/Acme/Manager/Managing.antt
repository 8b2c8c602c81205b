-- ===== src/Acme/Manager/Managing.antt =====
-- What `Manage` and `ManageIP` of internal/acme/manager.go do.
use oastrix.Prelude.{
  ◌≡◌, ◌↔◌, refl, Str, bytes, Bool, true, false, Option, none, some, [], ◌∷◌, ◌++◌, arith, str_eq,
  if◌then◌else◌, Option-cases, Bool-cases, inl, inr,
}
use oastrix.Acme.Manager.{
  Config, Manager, AcmeError, invalid_public_ip, Certmagic, ca_url, manage, manage_ip,
}

module _ {W C Hello : Type 0} (cm : Certmagic W C Hello) where
  -- The configuration that `Manage` makes: the manager's storage, the directory that the flag for
  -- staging selects, and the solver over the manager's TXT records.
  unfoldable pub domain_config : Manager → Config
  domain_config m = record {
    stored = true;
    issuer = record {
      ca = if m.staging then cm.staging_ca else cm.production_ca;
      email = m.email;
      agreed = true;
      profile = [];
      disable_tls_alpn = false;
      dns01 = m.txt_store;
    };
  }

  -- `Manage` succeeds exactly where the storage can be made and certmagic then takes the domain and
  -- its wildcard under that configuration; the manager then has it.
  pub manage-none_iff :
      (m : Manager) (w : W)
      → ((manage cm m w).0 ≡ none) ↔ (
          ((cm.new_storage w).0 ≡ true)
          × ((cm.manage_async
                (domain_config m)
                (m.domain ∷ (bytes "*." ++ m.domain) ∷ [])
                (cm.new_storage w).1).0
              ≡ true)
          × ((manage cm m w).1.0.dns_config ≡ some (domain_config m)))
  unfolding manage domain_config ca_url
  manage-none_iff m w = ground arith

  -- `ManageIP` fails only for an address that cannot be read, and then asks for nothing; whatever it
  -- does, the certificates of the domain are managed as before.
  pub manage_ip-failed :
      (parse_ip : Str → Option Str) (is_ipv4 : Str → Bool) (m : Manager) (w : W)
      → let (e, (m', w')) = manage_ip cm parse_ip is_ipv4 m w in
        (m'.dns_config ≡ m.dns_config)
        × ((x : AcmeError)
            → e ≡ some x
            → (x ≡ invalid_public_ip m.public_ip)
              × (parse_ip m.public_ip ≡ none)
              × (m' ≡ m)
              × (w' ≡ w))
  unfolding manage_ip
  manage_ip-failed parse_ip is_ipv4 m w = elim (Bool-cases (str_eq m.public_ip [])) [
    | inl empty ↦ rw (empty, manage_ip) (refl, λ x h. cc)
    | inr given ↦ elim (Option-cases (parse_ip m.public_ip)) [
      | inl bad ↦ rw (given, manage_ip, bad) (refl, λ x h. (ground arith, refl, refl, refl))
      | inr (ip, read) ↦ elim (Bool-cases (is_ipv4 ip)) [
        | inl four ↦ rw (given, manage_ip, read, four) (refl, λ x h. cc)
        | inr six ↦ rw (given, manage_ip, read, six) (refl, λ x h. cc)
      ]
    ]
  ]

  pub manage-done :
      (m : Manager) (w : W)
      → (cm.new_storage w).0 ≡ true
      → (cm.manage_async
          (domain_config m)
          (m.domain ∷ (bytes "*." ++ m.domain) ∷ [])
          (cm.new_storage w).1).0
        ≡ true
      → (w' : W) × (manage cm m w
          ≡ (none, (record m { storage = true; dns_config = some (domain_config m) }, w')))
  unfolding manage domain_config ca_url
  manage-done m w made taken = (
    (cm.manage_async (domain_config m) (m.domain ∷ (bytes "*." ++ m.domain) ∷ [])
        (cm.new_storage w).1).1,
    ground arith,
  )

  pub manage_ip-done :
      (parse_ip : Str → Option Str) (is_ipv4 : Str → Bool) (m : Manager) (w : W) (ip : Str)
      → parse_ip m.public_ip ≡ some ip
      → (m' : Manager) × (w' : W) × (manage_ip cm parse_ip is_ipv4 m w ≡ (none, (m', w')))
  unfolding manage_ip
  manage_ip-done parse_ip is_ipv4 m w ip read =
      let r = manage_ip cm parse_ip is_ipv4 m w in (r.1.0, r.1.1, ground arith)
