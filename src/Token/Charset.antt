-- ===== src/Token/Charset.antt =====
-- The alphabet of tokens: internal/token/token.go.
use oastrix.Prelude.{
  ℕ, suc, ◌%◌, ◌≡◌, ◌≢◌, refl, ap, Str, Bool, true, ◌&&◌, ◌||◌, some, [], ◌∷◌, map, arith, leb,
  passes, passes-at, get_or, length, Lacks, to_lower, lower_byte, all,
}
use oastrix.Token.{token_length, charset, charset_at, generate}

-- A lower-case letter or a digit.
abbrev pub is_label_byte : ℕ → Bool
is_label_byte c = (leb b'a' c && leb c b'z') || (leb b'0' c && leb c b'9')

-- A text that stays whole where the servers look for tokens: it is not empty, and has no
-- separator and no upper-case letter.
abbrev pub IsLabel : Str → Type 0
IsLabel s = (s ≢ []) × (all is_label_byte s ≡ true)

charset_table : passes (λ d. is_label_byte (get_or charset d 0)) 36 ≡ true
unfolding passes
charset_table = refl

charset_at-is_label_byte : (b : ℕ) → is_label_byte (charset_at b) ≡ true
unfolding charset_at
charset_at-is_label_byte b = passes-at _ 36 (b % 36) (omega arith) charset_table

map-charset_at : (bs : Str) → all is_label_byte (map charset_at bs) ≡ true
map-charset_at [] = refl
map-charset_at (b ∷ bs) = rw (charset_at-is_label_byte b) (map-charset_at bs)

length-map-charset_at : (bs : Str) → length (map charset_at bs) ≡ length bs
length-map-charset_at [] = refl
length-map-charset_at (b ∷ bs) = ap suc (length-map-charset_at bs)

-- Whatever twelve bytes the random source delivers, the token has twelve characters and is a
-- label: lower-case letters and digits only.
pub generate-IsLabel :
    (random_bytes tok : Str)
    → length random_bytes ≡ token_length
    → generate (some random_bytes) ≡ some tok
    → (length tok ≡ token_length) × IsLabel tok
unfolding generate
generate-IsLabel [] tok len made = absurd (omega arith)
generate-IsLabel (b ∷ bs) tok len made =
    ground (arith, length-map-charset_at (b ∷ bs), map-charset_at (b ∷ bs))

pub Lacks-of_label :
    (c : ℕ) (s : Str) → is_label_byte c ≢ true → all is_label_byte s ≡ true → Lacks c s
Lacks-of_label c [] h k = tt
Lacks-of_label c (x ∷ s) h k = (ground arith, Lacks-of_label c s h (ground arith))

pub to_lower_of_label : (s : Str) → all is_label_byte s ≡ true → to_lower s ≡ s
unfolding to_lower lower_byte
to_lower_of_label [] k = refl
to_lower_of_label (x ∷ s) k = ground (arith, to_lower_of_label s (ground arith))
