-- ===== src/Auth/Keys.antt =====
-- The format of a display key: internal/auth/auth.go.
use oastrix.Auth.{
  encode_base62, NewKey, hash_secret, alphanumeric, alphanumeric_at, generate_api_key,
  verify_api_key, service_prefix, prefix_length, is_alphanumeric, parse_rest, parse_api_key,
  join_key,
}
use oastrix.Prelude.{
  drop-suc-append, str_eq_iff, false, map, str_eq, ℕ, zero, suc, ◌≡◌, ◌↔◌, refl, sym, ap, ◌∙◌, Str,
  bytes, true, some, [], ◌∷◌, ◌++◌, arith, inl, inr, Bool-cases, Option-cases, length, all, take,
  drop, index_byte, index_byte-append, has_prefix, trim_prefix, Lacks, has_prefix-append,
  trim_prefix-append, append-of-has_prefix, take-length-append, ◌%◌, passes, passes-at, get_or,
}

abbrev header : Str
header = service_prefix ++ bytes "_"

-- What a prefix looks like.
abbrev pub IsPrefix : Str → Type 0
IsPrefix p = (length p ≡ prefix_length) × (all is_alphanumeric p ≡ true)

Lacks-alphanumeric : (p : Str) → all is_alphanumeric p ≡ true → Lacks b'_' p
unfolding is_alphanumeric
Lacks-alphanumeric [] h = tt
Lacks-alphanumeric (c ∷ p) h = (ground arith, Lacks-alphanumeric p (ground arith))

parse_rest-join : (p s : Str) → IsPrefix p → parse_rest (p ++ b'_' ∷ s) ≡ some (p, s)
unfolding parse_rest
parse_rest-join p s (len, alnum) = rw (
  index_byte-append p s b'_' (Lacks-alphanumeric p alnum),
  take-length-append p (b'_' ∷ s),
  drop-suc-append p s b'_',
  len,
  alnum,
)

pub parse-join_key : (p s : Str) → IsPrefix p → parse_api_key (join_key p s) ≡ some (p, s)
unfolding parse_api_key
parse-join_key p s h =
    rw (has_prefix-append header (p ++ b'_' ∷ s), trim_prefix-append header (p ++ b'_' ∷ s))
      (parse_rest-join p s h)

take-append-index :
    (s : Str) (c i : ℕ) → index_byte s c ≡ some i → take i s ++ c ∷ drop (suc i) s ≡ s
unfolding index_byte
take-append-index [] c i h = cc
take-append-index (x ∷ s) c zero h = ground arith
take-append-index (x ∷ s) c (suc i) h = ap (λ r. x ∷ r) (take-append-index s c i (ground arith))

parse_rest_sound :
    (rest p s : Str) → parse_rest rest ≡ some (p, s) → (p ++ b'_' ∷ s ≡ rest) × IsPrefix p
unfolding parse_rest
parse_rest_sound rest p s h = elim (Option-cases (index_byte rest b'_')) [
  | inl missing ↦ cc (rw missing at h)
  | inr (i, found) ↦
      let h' = rw found at h in ground (arith, take-append-index rest b'_' i found, h')
]

parse_sound : (key p s : Str) → parse_api_key key ≡ some (p, s) → (key ≡ join_key p s) × IsPrefix p
unfolding parse_api_key
parse_sound key p s h = elim (Bool-cases (has_prefix key header)) [
  | inl starts ↦
      let (rest, form) = parse_rest_sound (trim_prefix key header) p s (rw starts at h) in
      (sym (append-of-has_prefix key header starts) ∙ ap (λ r. header ++ r) (sym rest), form)
  | inr other ↦ cc (rw other at h)
]

-- A display key parses to a prefix and a secret exactly when it is the service prefix, a prefix
-- of twelve lower-case letters and digits, and the secret, joined by underscores.
pub parse_api_key_iff :
    (key p s : Str) → (parse_api_key key ≡ some (p, s)) ↔ ((key ≡ join_key p s) × IsPrefix p)
parse_api_key_iff key p s = (parse_sound key p s, λ (same, h). rw same (parse-join_key p s h))

alphanumeric_table : passes (λ d. is_alphanumeric (get_or alphanumeric d 0)) 36 ≡ true
unfolding passes is_alphanumeric
alphanumeric_table = refl

alphanumeric_at-is_alphanumeric : (b : ℕ) → is_alphanumeric (alphanumeric_at b) ≡ true
unfolding alphanumeric_at
alphanumeric_at-is_alphanumeric b = passes-at _ 36 (b % 36) (omega arith) alphanumeric_table

map-alphanumeric_at : (bs : Str) → all is_alphanumeric (map alphanumeric_at bs) ≡ true
map-alphanumeric_at [] = refl
map-alphanumeric_at (b ∷ bs) = rw (alphanumeric_at-is_alphanumeric b) (map-alphanumeric_at bs)

length-map-alphanumeric_at : (bs : Str) → length (map alphanumeric_at bs) ≡ length bs
length-map-alphanumeric_at [] = refl
length-map-alphanumeric_at (b ∷ bs) = ap suc (length-map-alphanumeric_at bs)

-- The prefix made from twelve random bytes has the form of a prefix.
pub map-alphanumeric_at-IsPrefix :
    (bs : Str) → length bs ≡ prefix_length → IsPrefix (map alphanumeric_at bs)
map-alphanumeric_at-IsPrefix bs h = (length-map-alphanumeric_at bs ∙ h, map-alphanumeric_at bs)

IsPrefix-ne-nil : (p : Str) → IsPrefix p → str_eq p [] ≡ false
unfolding str_eq
IsPrefix-ne-nil [] h = absurd (omega arith)
IsPrefix-ne-nil (c ∷ p) h = refl

module _ (sha256 : Str → Str) where
  -- A key is accepted against a stored hash exactly when it has the format of a display key and
  -- the hash of its secret is the stored hash.
  pub verify_api_key_iff :
      (key hash : Str)
      → (verify_api_key sha256 key hash ≡ true)
        ↔ ((p : Str) × (s : Str) × (key ≡ join_key p s) × IsPrefix p × (sha256 s ≡ hash))
  unfolding verify_api_key hash_secret
  verify_api_key_iff key hash = (to, from)
    where
      to :
          verify_api_key sha256 key hash ≡ true
          → (p : Str) × (s : Str) × (key ≡ join_key p s) × IsPrefix p × (sha256 s ≡ hash)
      to h = elim (Option-cases (parse_api_key key)) [
        | inl bad ↦ cc (rw (bad, verify_api_key) at h)
        | inr ((p, s), parsed) ↦
            let form = (parse_api_key_iff key p s).0 parsed in
            let h' = rw (parsed, verify_api_key) at h in
            (p, s, form.0, form.1, ground (arith, str_eq_iff (sha256 s) hash))
      ]

      from :
          (p : Str) × (s : Str) × (key ≡ join_key p s) × IsPrefix p × (sha256 s ≡ hash)
          → verify_api_key sha256 key hash ≡ true
      from (p, s, same, form, hashed) =
          rw ((parse_api_key_iff key p s).1 (same, form), verify_api_key, IsPrefix-ne-nil p form)
            ((str_eq_iff (sha256 s) hash).1 hashed)

  -- A key generated from twelve random bytes for its prefix and any for its secret parses to its
  -- own prefix and its encoded secret, and is accepted against its own hash.
  pub parse-generate_api_key :
      (prefix_bytes secret_raw : Str) (k : NewKey)
      → length prefix_bytes ≡ prefix_length
      → generate_api_key sha256 (some prefix_bytes) (some secret_raw) ≡ some k
      → (parse_api_key k.display_key ≡ some (k.prefix, encode_base62 secret_raw))
        × (verify_api_key sha256 k.display_key k.hash ≡ true)
  unfolding generate_api_key hash_secret
  parse-generate_api_key prefix_bytes secret_raw k len made =
      let p = map alphanumeric_at prefix_bytes in
      let s = encode_base62 secret_raw in
      let form = map-alphanumeric_at-IsPrefix prefix_bytes len in
      let shape : (k.display_key ≡ join_key p s) × (k.prefix ≡ p) × (k.hash ≡ sha256 s) =
        ground arith in
      (
        rw shape.1 ((parse_api_key_iff k.display_key p s).1 (shape.0, form)),
        (verify_api_key_iff k.display_key k.hash).1 (p, s, shape.0, form, sym shape.2),
      )
