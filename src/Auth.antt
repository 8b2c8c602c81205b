-- ===== src/Auth.antt =====
-- API keys: internal/auth/auth.go. SHA-256 is a parameter of the functions that hash, and what
-- `rand.Read` delivers is an argument, `none` where it fails. An error is `none`: the package
-- has one error for a malformed key, and none of its own for a failed read.
pub mod Base62
pub mod Keys
pub mod Injective
mod Tests
use mathlib.Core.Option
use oastrix.Prelude.{
  ℕ, zero, suc, ◌+◌, ◌*◌, ◌/◌, ◌%◌, Str, bytes, Bool, true, false, ◌&&◌, ◌||◌, not, Option, none,
  some, List, [], ◌∷◌, ◌++◌, map, ltb, leb, ◌==◌, if◌then◌else◌, str_eq, length, all, get_or,
  index_byte, has_prefix, trim_prefix, take, drop,
}

abbrev pub service_prefix : Str
service_prefix = bytes "oastrix"

abbrev pub prefix_length : ℕ
prefix_length = 12

abbrev pub secret_bytes : ℕ
secret_bytes = 32

abbrev pub alphanumeric : Str
alphanumeric = bytes "abcdefghijklmnopqrstuvwxyz0123456789"

abbrev pub base62_alphabet : Str
base62_alphabet = bytes "0123456789ABCDEFGHIJKLMNOPQRSTUVWXYZabcdefghijklmnopqrstuvwxyz"

unfoldable pub is_alphanumeric : ℕ → Bool
is_alphanumeric c = (leb b'a' c && leb c b'z') || (leb b'0' c && leb c b'9')

-- `SetBytes`: the number whose base-256 digits are the data, the most significant first.
unfoldable pub set_bytes : ℕ → Str → ℕ
set_bytes n [] = n
set_bytes n (b ∷ data') = set_bytes (n * 256 + b) data'

abbrev pub base62_digit : ℕ → ℕ
base62_digit d = get_or base62_alphabet d 0

-- The loop `for num.Cmp(zero) > 0`, on fuel; `encode_base62` gives it `num` rounds.
unfoldable pub base62_loop : ℕ → ℕ → Str → Str
base62_loop zero num result = result
base62_loop (suc fuel) num result =
    let rest = base62_loop fuel (num / 62) (base62_digit (num % 62) ∷ result) in
    if ltb 0 num then rest else result

-- The loop that preserves leading zeros.
unfoldable pub zeros_loop : Str → Str → Str
zeros_loop [] result = result
zeros_loop (b ∷ data') result =
    let rest = zeros_loop data' (b'0' ∷ result) in if b == 0 then rest else result

abbrev pub or_zero : Str → Str
or_zero [] = bytes "0"
or_zero (c ∷ s) = c ∷ s

unfoldable pub encode_base62 : Str → Str
unfolding base62_loop zeros_loop set_bytes
encode_base62 data' =
    or_zero (zeros_loop data' (base62_loop (set_bytes 0 data') (set_bytes 0 data') []))

abbrev pub guard : Bool → Option (Unit {0})
guard true = some tt
guard false = none

infixl 5 ◌>>=◌ ◌>>◌
abbrev pub ◌>>=◌ {ℓ κ} : {A : Type ℓ} {B : Type κ} → Option A → (A → Option B) → Option B
none >>= k = none
some a >>= k = k a

abbrev pub ◌>>◌ {ℓ} : {B : Type ℓ} → Option (Unit {0}) → Option B → Option B
m >> k = m >>= λ _. k

-- Cut at the separator at position `i`: the two parts of `SplitN(rest, "_", 2)`.
abbrev pub cut : Str → Option ℕ → Option (Str × Str)
cut rest none = none
cut rest (some i) = some (take i rest, drop (suc i) rest)

-- The statements after the service prefix is cut off. The loop over the runes of the prefix reads
-- bytes here: a byte of a rune that is not ASCII is not alphanumeric, and neither is the rune.
unfoldable pub parse_rest : Str → Option (Str × Str)
parse_rest rest = do
  parts ← cut rest (index_byte rest b'_')
  guard (length parts.0 == prefix_length)
  guard (all is_alphanumeric parts.0)
  some parts

unfoldable pub parse_api_key : Str → Option (Str × Str)
parse_api_key display_key = do
  guard (has_prefix display_key (service_prefix ++ bytes "_"))
  parse_rest (trim_prefix display_key (service_prefix ++ bytes "_"))

unfoldable pub alphanumeric_at : ℕ → ℕ
alphanumeric_at b = get_or alphanumeric (b % 36) 0

-- The name of a key that was made: what the user sees, the prefix and the hash.
pub record NewKey : Type 0 where
  pub display_key : Str
  pub prefix : Str
  pub hash : Str

abbrev pub join_key : Str → Str → Str
join_key prefix secret = service_prefix ++ bytes "_" ++ (prefix ++ (bytes "_" ++ secret))

module _ (sha256 : Str → Str) where
  unfoldable pub hash_secret : Str → Str
  hash_secret secret = sha256 secret

  unfoldable pub generate_api_key : Option Str → Option Str → Option NewKey
  generate_api_key prefix_read secret_read = do
    prefix_bytes ← prefix_read
    let prefix = map alphanumeric_at prefix_bytes
    secret_raw ← secret_read
    let secret = encode_base62 secret_raw
    some (record {
      display_key = join_key prefix secret;
      prefix = prefix;
      hash = hash_secret secret;
    })

  unfoldable pub verify_api_key : Str → Str → Bool
  verify_api_key display_key stored_hash = elim (parse_api_key display_key) [
    | none ↦ false
    | some (prefix, secret) ↦
        if str_eq prefix [] then false else str_eq (hash_secret secret) stored_hash
  ]
