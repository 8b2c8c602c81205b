-- ===== src/Db/Tokens/Sorting.antt =====
-- Listings in descending order of time: ListTokensByAPIKey of internal/db/db.go and
-- GetInteractionsByToken of internal/db/interactions.go.
use mathlib.Core.List.Perm
use mathlib.Core.List.{Perm}
use oastrix.Prelude.{
  Option, none, some, Bool, false, refl, length, subst, ℕ, ◌≤◌, ◌≡◌, List, [], ◌∷◌, map, arith, leb,
  leb→le, ◌==◌, keep, All, All-map, Bool-cases, inl, inr,
}
use oastrix.Failure.{ok}
use oastrix.Models.{Token, Interaction, InteractionRow}
use oastrix.Db.{Db}
use oastrix.Db.Tokens.{
  count_interactions, TokenWithCount, insert_desc, sort_desc, owned_by, select_tokens,
  list_tokens_by_api_key,
}
use oastrix.Db.Interactions.{scan_interaction, select_interactions, get_interactions_by_token}

module _ {A : Type 0} (time : A → ℕ) where
  -- No later element has a greater time.
  abbrev pub IsDescending : List A → Type 0
  IsDescending [] = Unit
  IsDescending (x ∷ xs) = All (λ y. time y ≤ time x) xs × IsDescending xs

  insert_desc-Perm : (x : A) (xs : List A) → Perm (insert_desc time x xs) (x ∷ xs)
  unfolding insert_desc
  insert_desc-Perm x [] = Perm.rfl
  insert_desc-Perm x (y ∷ ys) = elim (Bool-cases (leb (time y) (time x))) [
    | inl here ↦ rw (here, insert_desc) Perm.rfl
    | inr later ↦
        rw (later, insert_desc)
          (Perm.trans (Perm.cons y (insert_desc-Perm x ys)) (Perm.swap x y ys))
  ]

  sort_desc-Perm : (xs : List A) → Perm (sort_desc time xs) xs
  unfolding sort_desc
  sort_desc-Perm [] = Perm.rfl
  sort_desc-Perm (x ∷ xs) =
      Perm.trans (insert_desc-Perm x (sort_desc time xs)) (Perm.cons x (sort_desc-Perm xs))

  All-insert_desc :
      (bound : ℕ) (x : A) (xs : List A)
      → time x ≤ bound
      → All (λ y. time y ≤ bound) xs
      → All (λ y. time y ≤ bound) (insert_desc time x xs)
  unfolding insert_desc
  All-insert_desc bound x [] h hs = (h, tt)
  All-insert_desc bound x (y ∷ ys) h hs = elim (Bool-cases (leb (time y) (time x))) [
    | inl here ↦ rw (here, insert_desc) (h, hs)
    | inr later ↦ rw (later, insert_desc) (hs.0, All-insert_desc bound x ys h hs.1)
  ]

  insert_desc-IsDescending :
      (x : A) (xs : List A) → IsDescending xs → IsDescending (insert_desc time x xs)
  unfolding insert_desc
  insert_desc-IsDescending x [] h = (tt, tt)
  insert_desc-IsDescending x (y ∷ ys) h = elim (Bool-cases (leb (time y) (time x))) [
    | inl here ↦
        let le = leb→le (time y) (time x) here in
        rw (here, insert_desc) ((le, All-map (λ z below. omega arith) ys h.0), h)
    | inr later ↦
        let le : time x ≤ time y = ground arith in
        rw (later, insert_desc)
          (All-insert_desc (time y) x ys le h.0, insert_desc-IsDescending x ys h.1)
  ]

  sort_desc-IsDescending : (xs : List A) → IsDescending (sort_desc time xs)
  unfolding sort_desc
  sort_desc-IsDescending [] = tt
  sort_desc-IsDescending (x ∷ xs) =
      insert_desc-IsDescending x (sort_desc time xs) (sort_desc-IsDescending xs)

-- Whether an API key, given by its ID, is that of a token.
abbrev pub is_key : ℕ → Option ℕ → Bool
is_key key none = false
is_key key (some id) = id == key

owned_by-is_key : (key : ℕ) (t : Token) → owned_by key t ≡ is_key key t.api_key_id
owned_by-is_key key t = by_owner t.api_key_id
  where
    by_owner : (o : Option ℕ) → elim o [ none ↦ false | some id ↦ id == key ] ≡ is_key key o
    by_owner none = refl
    by_owner (some id) = refl

count_interactions-length :
    (id : ℕ) (rows : List InteractionRow)
    → count_interactions id rows ≡ length (keep (λ (i : InteractionRow). i.token_id == id) rows)
unfolding count_interactions keep
count_interactions-length id [] = refl
count_interactions-length id (i ∷ rows) = ground (arith, count_interactions-length id rows)

-- A token as it is listed: with the number of the interactions that are its own.
abbrev pub listed : List InteractionRow → Token → TokenWithCount
listed rows t = record {
  token = t.token;
  label = t.label;
  created_at = t.created_at;
  interaction_count = length (keep (λ (i : InteractionRow). i.token_id == t.id) rows);
}

-- Where no statement fails, the tokens that are listed for an API key are those of which it is the
-- key, each once, with its value, its label, its time and the number of the interactions whose
-- token it is, the newest first; nothing is changed.
pub list_tokens_by_api_key-listed :
    (key : ℕ) (db : Db)
    → db.faults ≡ []
    → (ts : List TokenWithCount) × (list_tokens_by_api_key key db ≡ (ok ts, db))
      × IsDescending (λ t. t.created_at) ts
      × Perm ts
          (map (listed db.interactions) (keep (λ (t : Token). is_key key t.api_key_id) db.tokens))
unfolding list_tokens_by_api_key
list_tokens_by_api_key-listed key db sound = (
  select_tokens key db,
  ground arith,
  sort_desc-IsDescending (λ t. t.created_at) _,
  subst (Perm (select_tokens key db))
      (λ i.
        map
          (λ (t : Token). record {
            token = t.token;
            label = t.label;
            created_at = t.created_at;
            interaction_count = count_interactions-length t.id db.interactions i;
          })
          (keep (λ (t : Token). owned_by-is_key key t i) db.tokens))
      (sort_desc-Perm (λ (t : TokenWithCount). t.created_at) _),
)

scanned-IsDescending :
    (rows : List InteractionRow)
    → IsDescending (λ r. r.occurred_at) rows
    → IsDescending (λ (i : Interaction). i.occurred_at) (map scan_interaction rows)
scanned-IsDescending [] h = tt
scanned-IsDescending (r ∷ rows) h =
    (scanned-All r.occurred_at rows h.0, scanned-IsDescending rows h.1)
  where
    scanned-All :
        (bound : ℕ) (rs : List InteractionRow)
        → All (λ (q : InteractionRow). q.occurred_at ≤ bound) rs
        → All (λ (i : Interaction). i.occurred_at ≤ bound) (map scan_interaction rs)
    scanned-All bound [] k = tt
    scanned-All bound (q ∷ rs) k = (k.0, scanned-All bound rs k.1)

-- Where no statement fails, the interactions that are read for a token are those of its rows, each
-- once, the latest first; nothing is changed.
pub get_interactions_by_token-listed :
    (id : ℕ) (db : Db)
    → db.faults ≡ []
    → (is : List Interaction) × (get_interactions_by_token id db ≡ (ok is, db))
      × IsDescending (λ i. i.occurred_at) is
      × Perm is (map scan_interaction (keep (λ r. r.token_id == id) db.interactions))
unfolding get_interactions_by_token
get_interactions_by_token-listed id db sound =
    let rows = keep (λ (r : InteractionRow). r.token_id == id) db.interactions in
    (
      select_interactions id db,
      ground arith,
      scanned-IsDescending _ (sort_desc-IsDescending (λ (r : InteractionRow). r.occurred_at) rows),
      Perm.map scan_interaction (sort_desc-Perm (λ (r : InteractionRow). r.occurred_at) rows),
    )
