-- ===== src/Server/Api/Access/Auth.antt =====
-- Which requests AuthMiddleware of internal/server/api.go lets through, and for which API key.
use oastrix.Db.ApiKeys.{create_api_key, find_api_key, get_api_key_by_prefix}
use oastrix.Auth.{
  generate_api_key, prefix_length, NewKey, join_key, parse_api_key, verify_api_key, encode_base62,
}
use oastrix.Prelude.{
  Bool, List, ◌⊎◌, length, ℕ, ◌≡◌, ◌↔◌, inl, inr, refl, sym, ◌∙◌, ap, Str, true, false, Option,
  none, some, [], ◌∷◌, ◌++◌, arith, str_eq, has_prefix, trim_prefix, append-of-has_prefix,
  has_prefix-append, trim_prefix-append, Option-cases,
}
use oastrix.Server.Api.Access.{Handler, unauthorized, auth_middleware, authenticate, bearer}
use oastrix.Server.Api.Flow.{returned, go_on_next, go_on-returned, next}
use oastrix.Failure.{ok}
use oastrix.Models.{ApiKey}
use oastrix.Auth.Keys.{IsPrefix, parse_api_key_iff, verify_api_key_iff, parse-generate_api_key}
use oastrix.Db.{Db}
use oastrix.Db.ApiKeys.Laws.{create_api_key-stored}

-- What makes a header good for an API key: the key has its format, its prefix is stored for a
-- key that is not revoked, and the hash of its secret is the stored one.
pub record Grants (sha256 : Str → Str) (db : Db) (auth_header : Str) (id : ℕ) : Type 0 where
  pub prefix : Str
  pub secret : Str
  pub key : ApiKey
  pub header : auth_header ≡ bearer ++ join_key prefix secret
  pub form : IsPrefix prefix
  pub stored : find_api_key prefix db.api_keys ≡ some key
  pub active : key.revoked_at ≡ none
  pub hashed : sha256 secret ≡ key.key_hash
  pub numbered : key.id ≡ id

bearer-ne-nil : (h s : Str) → h ≡ bearer ++ s → str_eq h [] ≡ false
unfolding str_eq
bearer-ne-nil [] s e = cc
bearer-ne-nil (c ∷ h) s e = refl

module _ (sha256 : Str → Str) where
  -- The statements of the middleware, each known to pass.
  authenticate-eq-next :
      (auth_header p s : Str) (k : ApiKey) (db : Db)
      → db.faults ≡ []
      → str_eq auth_header [] ≡ false
      → has_prefix auth_header bearer ≡ true
      → parse_api_key (trim_prefix auth_header bearer) ≡ some (p, s)
      → find_api_key p db.api_keys ≡ some k
      → k.revoked_at ≡ none
      → verify_api_key sha256 (trim_prefix auth_header bearer) k.key_hash ≡ true
      → (authenticate sha256 auth_header db).0 ≡ next k.id
  unfolding authenticate get_api_key_by_prefix
  authenticate-eq-next auth_header p s k db sound nonempty starts parsed stored active verified =
      ground arith

  Grants-authenticate :
      (auth_header : Str) (db : Db) (id : ℕ)
      → db.faults ≡ []
      → Grants sha256 db auth_header id
      → (authenticate sha256 auth_header db).0 ≡ next id
  Grants-authenticate auth_header db id sound g =
      let display = join_key g.prefix g.secret in
      let trimmed : trim_prefix auth_header bearer ≡ display =
        ap (λ h. trim_prefix h bearer) g.header ∙ trim_prefix-append bearer display in
      authenticate-eq-next auth_header g.prefix g.secret g.key db sound
        (bearer-ne-nil auth_header display g.header)
        (ap (λ h. has_prefix h bearer) g.header ∙ has_prefix-append bearer display)
        ((parse_api_key_iff (trim_prefix auth_header bearer) g.prefix g.secret).1 (trimmed, g.form))
        g.stored g.active
        ((verify_api_key_iff sha256 (trim_prefix auth_header bearer) g.key.key_hash).1
          (g.prefix, g.secret, trimmed, g.form, g.hashed))
      ∙ ap next g.numbered

  -- What a request that is let through has passed.
  authenticate-passed :
      (auth_header p s : Str) (k : ApiKey) (db : Db) (id : ℕ)
      → db.faults ≡ []
      → parse_api_key (trim_prefix auth_header bearer) ≡ some (p, s)
      → find_api_key p db.api_keys ≡ some k
      → (authenticate sha256 auth_header db).0 ≡ next id
      → (has_prefix auth_header bearer ≡ true)
        × (k.revoked_at ≡ none)
        × (verify_api_key sha256 (trim_prefix auth_header bearer) k.key_hash ≡ true)
        × (k.id ≡ id)
  unfolding authenticate get_api_key_by_prefix
  authenticate-passed auth_header p s k db id sound parsed stored h = ground arith

  -- A malformed key and an unknown prefix are turned away.
  authenticate-known :
      (auth_header : Str) (db : Db) (id : ℕ)
      → db.faults ≡ []
      → (authenticate sha256 auth_header db).0 ≡ next id
      → (p : Str) × (s : Str) × (k : ApiKey) × (parse_api_key (trim_prefix auth_header bearer)
          ≡ some (p, s))
        × (find_api_key p db.api_keys ≡ some k)
  unfolding authenticate get_api_key_by_prefix
  authenticate-known auth_header db id sound h =
      elim (Option-cases (parse_api_key (trim_prefix auth_header bearer))) [
        | inl bad ↦ absurd (ground arith)
        | inr ((p, s), parsed) ↦ elim (Option-cases (find_api_key p db.api_keys)) [
          | inl missing ↦ absurd (ground arith)
          | inr (k, stored) ↦ (p, s, k, parsed, stored)
        ]
      ]

  authenticate-Grants :
      (auth_header : Str) (db : Db) (id : ℕ)
      → db.faults ≡ []
      → (authenticate sha256 auth_header db).0 ≡ next id
      → Grants sha256 db auth_header id
  authenticate-Grants auth_header db id sound h =
      let (p, s, k, parsed, stored) = authenticate-known auth_header db id sound h in
      let (starts, active, verified, numbered) =
        authenticate-passed auth_header p s k db id sound parsed stored h in
      let key = trim_prefix auth_header bearer in
      let form = (parse_api_key_iff key p s).0 parsed in
      let (p', s', same, form', hashed) = (verify_api_key_iff sha256 key k.key_hash).0 verified in
      record {
        prefix = p;
        secret = s;
        key = k;
        header =
            sym (append-of-has_prefix auth_header bearer starts) ∙ ap (λ r. bearer ++ r) form.0;
        form = form.1;
        stored = stored;
        active = active;
        hashed = ground (
          arith,
          ap {B = Option (Str × Str)} (λ r. r) parsed,
          (parse_api_key_iff key p' s').1 (same, form'),
          hashed,
        );
        numbered = numbered;
      }

  -- Where no statement fails, a request is let through for an API key exactly when its header is
  -- "Bearer " and a key of the right format, whose prefix is stored for that API key, which is
  -- not revoked and has the hash of the key's secret.
  pub authenticate_iff :
      (auth_header : Str) (db : Db) (id : ℕ)
      → db.faults ≡ []
      → ((authenticate sha256 auth_header db).0 ≡ next id) ↔ Grants sha256 db auth_header id
  authenticate_iff auth_header db id sound =
      (authenticate-Grants auth_header db id sound, Grants-authenticate auth_header db id sound)

  authenticate-returned :
      (auth_header : Str) (db : Db)
      → ((authenticate sha256 auth_header db).0 ≡ returned unauthorized)
        ⊎ ((id : ℕ) × ((authenticate sha256 auth_header db).0 ≡ next id))
  unfolding authenticate get_api_key_by_prefix
  authenticate-returned auth_header db = ground arith

  authenticate-reads :
      (auth_header : Str) (db : Db)
      → (authenticate sha256 auth_header db).1
        ≡ record db { faults = (authenticate sha256 auth_header db).1.faults }
  unfolding authenticate get_api_key_by_prefix
  authenticate-reads auth_header db = ground arith

  -- Whatever the header and the faults of the engine, the middleware either answers 401 and
  -- leaves the tables as they are, or hands the request to the next handler with the API key that
  -- was authenticated, over those same tables.
  pub auth_middleware_cases :
      (next_handler : ℕ → Handler ⊥) (auth_header : Str) (db : Db)
      → (fs : List Bool) × ((auth_middleware sha256 next_handler auth_header db
            ≡ (returned unauthorized, record db { faults = fs }))
          ⊎ ((id : ℕ) × ((authenticate sha256 auth_header db).0 ≡ next id)
              × (auth_middleware sha256 next_handler auth_header db
                  ≡ next_handler id (record db { faults = fs }))))
  unfolding auth_middleware
  auth_middleware_cases next_handler auth_header db =
      let m = authenticate sha256 auth_header db in
      let reads = authenticate-reads auth_header db in
      elim (authenticate-returned auth_header db) [
        | inl denied ↦ (
          m.1.faults,
          inl (
              go_on-returned m next_handler unauthorized denied
              ∙ ap (λ d. (returned unauthorized, d)) reads),
        )
        | inr (id, granted) ↦ (
          m.1.faults,
          inr (id, granted, go_on_next m next_handler id granted ∙ ap (next_handler id) reads),
        )
      ]

  -- A key that was generated from twelve random bytes for its prefix, and stored, where no
  -- statement fails, lets its bearer in, as the API key of the new row.
  pub authenticate-generate_api_key :
      (prefix_bytes secret_raw : Str) (k : NewKey) (db db' : Db) (id : ℕ)
      → length prefix_bytes ≡ prefix_length
      → generate_api_key sha256 (some prefix_bytes) (some secret_raw) ≡ some k
      → db.faults ≡ []
      → create_api_key k.prefix k.hash db ≡ (ok id, db')
      → (authenticate sha256 (bearer ++ k.display_key) db').0 ≡ next id
  authenticate-generate_api_key prefix_bytes secret_raw k db db' id len made sound created =
      let (parsed, verified) = parse-generate_api_key sha256 prefix_bytes secret_raw k len made in
      let trimmed = trim_prefix-append bearer k.display_key in
      let (row, stored, same_id, same_hash, active, sound') =
        create_api_key-stored k.prefix k.hash db db' id sound created in
      authenticate-eq-next (bearer ++ k.display_key) k.prefix (encode_base62 secret_raw) row db'
        sound' (bearer-ne-nil (bearer ++ k.display_key) k.display_key refl)
        (has_prefix-append bearer k.display_key) (ap parse_api_key trimmed ∙ parsed) stored active
        (ap (λ d. verify_api_key sha256 d row.key_hash) trimmed
          ∙ ap (verify_api_key sha256 k.display_key) same_hash
          ∙ verified)
      ∙ ap next same_id
