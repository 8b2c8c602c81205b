-- ===== src/Server/Qname.antt =====
-- Where the DNS server finds a token: `extractTokenFromQName` of internal/server/dns.go. Names are
-- ASCII: the DNS library spells other bytes by escapes.
pub mod Laws
use oastrix.Prelude.{
  Str, bytes, Bool, List, [], ◌∷◌, ◌++◌, ◌&&◌, not, if◌then◌else◌, to_lower, has_suffix,
  trim_suffix, split, str_eq,
}

-- The test `len(parts) == 0` never holds of a result of `strings.Split`, whose first part is a
-- component of its own here.
unfoldable pub extract_token_from_qname : Str → Str → Str
extract_token_from_qname qname domain =
    let domain' = to_lower domain in
    if not (has_suffix qname (bytes "." ++ domain')) && not (str_eq qname domain')
    then []
    else if str_eq qname domain'
    then []
    else (split (trim_suffix qname (bytes "." ++ domain')) b'.').0
