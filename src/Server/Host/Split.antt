-- ===== src/Server/Host/Split.antt =====
-- Host names with and without a port.
use oastrix.Prelude.{
  ℕ, ◌≡◌, ◌≢◌, refl, Str, false, [], ◌∷◌, ◌++◌, arith, All, All-append, Lacks, NoneOf,
  trim_of_NoneOf, index_byte_of_Lacks, last_index_byte_of_Lacks, last_index_byte-append,
  take-length-append,
}
use oastrix.Server.Host.{split_host_port, host_name, is_bracket, starts_bracket}

-- A character of a host name or an IPv4 address: no colon and no bracket.
abbrev pub IsHostByte : ℕ → Type 0
IsHostByte c = (c ≢ b':') × (c ≢ b'[') × (c ≢ b']')

abbrev pub IsHostName : Str → Type 0
IsHostName s = All IsHostByte s

Lacks-of_IsHostName : (s : Str) → IsHostName s → Lacks b':' s × Lacks b'[' s × Lacks b']' s
Lacks-of_IsHostName [] h = (tt, tt, tt)
Lacks-of_IsHostName (c ∷ s) (h, hs) =
    let (a, b, d) = Lacks-of_IsHostName s hs in ((h.0, a), (h.1, b), (h.2, d))

NoneOf-is_bracket : (s : Str) → IsHostName s → NoneOf is_bracket s
NoneOf-is_bracket [] h = tt
NoneOf-is_bracket (c ∷ s) h = (ground arith, NoneOf-is_bracket s h.1)

-- A host name with no port is taken as it is.
pub host_name_bare : (s : Str) → IsHostName s → host_name s ≡ s
unfolding host_name split_host_port
host_name_bare s h =
    rw (last_index_byte_of_Lacks s b':' (Lacks-of_IsHostName s h).0)
      (trim_of_NoneOf is_bracket s (NoneOf-is_bracket s h))

Lacks-append_colon :
    (c : ℕ) (s t : Str) → c ≢ b':' → Lacks c s → Lacks c t → Lacks c (s ++ b':' ∷ t)
Lacks-append_colon c s t h hs ht = All-append _ s (b':' ∷ t) hs (λ e. h (ground arith), ht)

starts_bracket-append : (s t : Str) → IsHostName s → starts_bracket (s ++ b':' ∷ t) ≡ false
starts_bracket-append [] t h = refl
starts_bracket-append (c ∷ s) t h = ground arith

-- A port is cut off.
pub host_name_port :
    (s port : Str) → IsHostName s → IsHostName port → host_name (s ++ b':' ∷ port) ≡ s
unfolding host_name split_host_port
host_name_port s port h hp =
    let (colon, open', close) = Lacks-of_IsHostName s h in
    let (pcolon, popen, pclose) = Lacks-of_IsHostName port hp in
    rw
      (
        last_index_byte-append s port b':' pcolon,
        starts_bracket-append s port h,
        take-length-append s (b':' ∷ port),
        index_byte_of_Lacks s b':' colon,
        index_byte_of_Lacks (s ++ b':' ∷ port) b'['
            (Lacks-append_colon b'[' s port (λ e. absurd (omega arith)) open' popen),
        index_byte_of_Lacks (s ++ b':' ∷ port) b']'
            (Lacks-append_colon b']' s port (λ e. absurd (omega arith)) close pclose),
      )
      (trim_of_NoneOf is_bracket s (NoneOf-is_bracket s h))
