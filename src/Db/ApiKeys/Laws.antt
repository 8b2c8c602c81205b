-- ===== src/Db/ApiKeys/Laws.antt =====
-- Lookup of API keys after creation.
use oastrix.Prelude.{ℕ, suc, ◌≡◌, refl, Str, none, some, [], arith, str_eq_refl}
use oastrix.Failure.{ok}
use oastrix.Models.{ApiKey}
use oastrix.Db.{Db}
use oastrix.Db.ApiKeys.{find_api_key, create_api_key}

-- After a row is inserted, its prefix finds it: a new ID, the hash, not revoked.
pub create_api_key-stored :
    (prefix hash : Str) (db db' : Db) (id : ℕ)
    → db.faults ≡ []
    → create_api_key prefix hash db ≡ (ok id, db')
    → (k : ApiKey) × (find_api_key prefix db'.api_keys ≡ some k)
      × (k.id ≡ id)
      × (k.key_hash ≡ hash)
      × (k.revoked_at ≡ none)
      × (db'.faults ≡ [])
unfolding create_api_key find_api_key
create_api_key-stored prefix hash db db' id sound h = (
  record {
    id = suc db.last_api_key;
    key_prefix = prefix;
    key_hash = hash;
    created_at = db.clock db.reads;
    revoked_at = none;
  },
  ground (arith, str_eq_refl prefix),
  ground arith,
  refl,
  refl,
  ground arith,
)
