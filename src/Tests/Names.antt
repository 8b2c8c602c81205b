-- ===== src/Tests/Names.antt =====
-- Host names and query names.
use oastrix.Prelude.{◌≡◌, ◌↔◌, refl, arith, map, Str, bytes, ◌∷◌, ◌++◌, to_lower, split, some}
use oastrix.Token.{generate, charset_at}
use oastrix.Token.Charset.{IsLabel}
use oastrix.Server.Host.{extract_token}
use oastrix.Server.Host.Extract.{subdomain, extract_token-subdomain}
use oastrix.Server.Qname.{extract_token_from_qname}
use oastrix.Server.Qname.Laws.{extract_token_from_qname_iff}
use oastrix.Tests.Data.{random_bytes, domain, tok}

label : IsLabel tok
label = (λ e. cc, refl)

extract_token-subdomain_example :
    (extract_token (subdomain tok domain) (bytes "/probe") domain ≡ tok)
    × (extract_token (subdomain tok domain ++ b':' ∷ bytes "8080") (bytes "/probe") domain ≡ tok)
    × (extract_token (bytes "www" ++ b'.' ∷ subdomain tok domain) (bytes "/probe") domain ≡ tok)
extract_token-subdomain_example =
    extract_token-subdomain tok domain (bytes "8080") (bytes "www") (bytes "/probe") label
      (ground arith) (ground arith) (ground arith)

abbrev qname : Str
qname = bytes "abc123abc123.oast.example"

extract_token_from_qname_iff_example :
    (extract_token_from_qname qname domain ≡ tok)
    ↔ ((pre : Str) × (qname ≡ pre ++ b'.' ∷ to_lower domain) × ((split pre b'.').0 ≡ tok))
extract_token_from_qname_iff_example = extract_token_from_qname_iff qname domain tok (λ e. cc)

abbrev generated : Str
generated = map charset_at random_bytes

drawn : generate (some random_bytes) ≡ some generated
unfolding generate
drawn = refl
