-- ===== src/Server/Host/Extract.antt =====
-- Which token a request carries, and which hosts are answered.
use oastrix.Prelude.{
  append_assoc, drop-suc-append, ◌≡◌, ◌≢◌, ◌↔◌, ◌⊎◌, inl, inr, refl, sym, ◌∙◌, ap, Str, bytes, true,
  false, [], ◌∷◌, ◌++◌, arith, all, All-append, Lacks, index_byte_of_Lacks,
  last_index_byte_of_Lacks, last_index_byte-append, index_byte-append, take-length-append,
  has_suffix, trim_suffix, has_suffix-append, trim_suffix-append, append-of-has_suffix,
  has_prefix-append, trim_prefix-append, Bool-cases, str_eq, str_eq_iff,
}
use oastrix.Token.Charset.{IsLabel, is_label_byte, Lacks-of_label}
use oastrix.Server.Host.{host_name, host_token, path_token, extract_token, is_valid_host}
use oastrix.Server.Host.Split.{IsHostName, IsHostByte, host_name_bare, host_name_port}

abbrev pub oast : Str
oast = bytes "/oast/"

-- The name of a token under the domain.
abbrev pub subdomain : Str → Str → Str
subdomain tok domain = tok ++ b'.' ∷ domain

IsHostName-of_label : (s : Str) → all is_label_byte s ≡ true → IsHostName s
IsHostName-of_label [] h = tt
IsHostName-of_label (c ∷ s) h = (ground arith, IsHostName-of_label s (ground arith))

subdomain-IsHostName :
    (tok domain : Str) → IsLabel tok → IsHostName domain → IsHostName (subdomain tok domain)
subdomain-IsHostName tok domain h k =
    All-append IsHostByte tok (b'.' ∷ domain) (IsHostName-of_label tok h.1) (omega arith, k)

host_token-subdomain :
    (tok domain : Str) → IsLabel tok → host_token (subdomain tok domain) domain ≡ tok
unfolding host_token extract_token
host_token-subdomain tok domain h = rw (
  has_suffix-append tok (b'.' ∷ domain),
  trim_suffix-append tok (b'.' ∷ domain),
  last_index_byte_of_Lacks tok b'.' (Lacks-of_label b'.' tok (λ e. cc) h.1),
)

host_token-nested :
    (pre tok domain : Str)
    → IsLabel tok
    → host_token (pre ++ b'.' ∷ subdomain tok domain) domain ≡ tok
unfolding host_token extract_token
host_token-nested pre tok domain h =
    rw
      (
        sym (append_assoc pre (b'.' ∷ tok) (b'.' ∷ domain)),
        has_suffix-append (pre ++ b'.' ∷ tok) (b'.' ∷ domain),
        trim_suffix-append (pre ++ b'.' ∷ tok) (b'.' ∷ domain),
        last_index_byte-append pre tok b'.' (Lacks-of_label b'.' tok (λ e. cc) h.1),
      )
      (drop-suc-append pre tok b'.')

extract_token_of_host :
    (host path domain tok : Str)
    → tok ≢ []
    → host_token (host_name host) domain ≡ tok
    → extract_token host path domain ≡ tok
unfolding extract_token
extract_token_of_host host path domain [] ne e = absurd (ne refl)
extract_token_of_host host path domain (c ∷ tok) ne e = rw (e, extract_token)

-- A request to the name of a token under the domain, with or without a port, or to a name below it,
-- carries that token, whatever its path. The token is a label, and the domain, the port and the
-- names have no colon and no bracket.
pub extract_token-subdomain :
    (tok domain port pre path : Str)
    → IsLabel tok
    → IsHostName domain
    → IsHostName port
    → IsHostName pre
    → (extract_token (subdomain tok domain) path domain ≡ tok)
      × (extract_token (subdomain tok domain ++ b':' ∷ port) path domain ≡ tok)
      × (extract_token (pre ++ b'.' ∷ subdomain tok domain) path domain ≡ tok)
extract_token-subdomain tok domain port pre path h hd hp hpre =
    let name = subdomain-IsHostName tok domain h hd in
    let found = host_token-subdomain tok domain h in
    (
      extract_token_of_host (subdomain tok domain) path domain tok h.0
          (ap (λ n. host_token n domain) (host_name_bare (subdomain tok domain) name) ∙ found),
      extract_token_of_host (subdomain tok domain ++ b':' ∷ port) path domain tok h.0 (
          ap (λ n. host_token n domain) (host_name_port (subdomain tok domain) port name hp)
          ∙ found),
      extract_token_of_host (pre ++ b'.' ∷ subdomain tok domain) path domain tok h.0 (
          ap (λ n. host_token n domain)
            (host_name_bare (pre ++ b'.' ∷ subdomain tok domain)
              (All-append IsHostByte pre (b'.' ∷ subdomain tok domain) hpre (omega arith, name)))
          ∙ host_token-nested pre tok domain h),
    )

extract_token_of_path :
    (host path domain : Str)
    → has_suffix (host_name host) (b'.' ∷ domain) ≡ false
    → extract_token host path domain ≡ path_token path
unfolding host_token extract_token
extract_token_of_path host path domain other = rw (other, extract_token)

path_token-bare : (tok : Str) → Lacks b'/' tok → path_token (oast ++ tok) ≡ tok
unfolding path_token
path_token-bare tok h =
    rw (has_prefix-append oast tok, trim_prefix-append oast tok, index_byte_of_Lacks tok b'/' h)

path_token-longer :
    (tok rest : Str) → Lacks b'/' tok → path_token (oast ++ (tok ++ b'/' ∷ rest)) ≡ tok
unfolding path_token
path_token-longer tok rest h =
    rw
      (
        has_prefix-append oast (tok ++ b'/' ∷ rest),
        trim_prefix-append oast (tok ++ b'/' ∷ rest),
        index_byte-append tok rest b'/' h,
      )
      (take-length-append tok (b'/' ∷ rest))

-- A request to a host that is not below the domain carries the token that follows "/oast/" in its
-- path: all of the rest if that has no slash, and else what stands before the next slash.
pub extract_token-path :
    (host domain tok rest : Str)
    → has_suffix (host_name host) (b'.' ∷ domain) ≡ false
    → Lacks b'/' tok
    → (extract_token host (oast ++ tok) domain ≡ tok)
      × (extract_token host (oast ++ (tok ++ b'/' ∷ rest)) domain ≡ tok)
extract_token-path host domain tok rest other h = (
  extract_token_of_path host (oast ++ tok) domain other ∙ path_token-bare tok h,
  extract_token_of_path host (oast ++ (tok ++ b'/' ∷ rest)) domain other
      ∙ path_token-longer tok rest h,
)

-- A host is answered exactly when, without its port and brackets, it is a name below the domain,
-- the domain itself, or the public address, where there is one.
pub is_valid_host_iff :
    (host domain public_ip : Str)
    → (is_valid_host host domain public_ip ≡ true) ↔ (
        ((pre : Str) × (host_name host ≡ subdomain pre domain))
        ⊎ (host_name host ≡ domain)
        ⊎ ((public_ip ≢ []) × (host_name host ≡ public_ip)))
unfolding is_valid_host
is_valid_host_iff host domain public_ip = (to, from)
  where
    name : Str
    name = host_name host

    to :
        is_valid_host host domain public_ip ≡ true
        → ((pre : Str) × (name ≡ subdomain pre domain))
          ⊎ (name ≡ domain)
          ⊎ ((public_ip ≢ []) × (name ≡ public_ip))
    to h = elim (Bool-cases (has_suffix name (b'.' ∷ domain))) [
      | inl below ↦
          inl (
            trim_suffix name (b'.' ∷ domain),
            sym (append-of-has_suffix name (b'.' ∷ domain) below),
          )
      | inr apart ↦ elim (Bool-cases (str_eq name domain)) [
        | inl same ↦ inr (inl ((str_eq_iff name domain).0 same))
        | inr other ↦ inr (inr (ground (arith, str_eq_iff name public_ip, str_eq_iff public_ip [])))
      ]
    ]

    from :
        ((pre : Str) × (name ≡ subdomain pre domain))
          ⊎ (name ≡ domain)
          ⊎ ((public_ip ≢ []) × (name ≡ public_ip))
        → is_valid_host host domain public_ip ≡ true
    from (inl (pre, same)) =
        let below : has_suffix name (b'.' ∷ domain) ≡ true =
          ap (λ n. has_suffix n (b'.' ∷ domain)) same ∙ has_suffix-append pre (b'.' ∷ domain) in
        ground arith
    from (inr h) =
        ground (arith, str_eq_iff name domain, str_eq_iff name public_ip, str_eq_iff public_ip [])
