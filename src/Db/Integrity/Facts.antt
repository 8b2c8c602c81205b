-- ===== src/Db/Integrity/Facts.antt =====
-- The IDs of tokens and of new interactions, for the functions of internal/db.
use oastrix.Prelude.{ℕ, suc, ◌≤◌, ◌≡◌, ◌≢◌, refl, Str, true, none, some, List, [], ◌∷◌, arith, All}
use oastrix.Models.{Token, InteractionRow, HttpInteraction, DnsInteraction}
use oastrix.Db.{Db}
use oastrix.Db.Tokens.{find_token}
use oastrix.Db.Interactions.{find_http, find_dns, interaction_exists}
use oastrix.Db.Integrity.{IsWellFormed}
use oastrix.Db.Integrity.Elements.{le-of-elem}

find_token-positive :
    (v : Str) (tokens : List Token) (t : Token) (last : ℕ)
    → All (λ (u : Token). (1 ≤ u.id) × (u.id ≤ last)) tokens
    → find_token v tokens ≡ some t
    → 1 ≤ t.id
unfolding find_token
find_token-positive v [] t last h found = cc
find_token-positive v (u ∷ tokens) t last h found =
    ground (arith, find_token-positive v tokens t last, h.0, h.1)

pub token_id-positive :
    (v : Str) (db : Db) (t : Token) → IsWellFormed db → find_token v db.tokens ≡ some t → t.id ≢ 0
token_id-positive v db t w found e =
    let positive = find_token-positive v db.tokens t db.last_token w.tokens_numbered found in
    absurd (omega arith)

fresh_http :
    (last : ℕ) (rows : List InteractionRow) (hs : List HttpInteraction)
    → All (λ (i : InteractionRow). i.id ≤ last) rows
    → All (λ (h : HttpInteraction). interaction_exists h.interaction_id rows ≡ true) hs
    → find_http (suc last) hs ≡ none
unfolding find_http
fresh_http last rows [] n h = refl
fresh_http last rows (d ∷ hs) n h =
    let bound = le-of-elem (λ (i : InteractionRow). i.id) last d.interaction_id rows n h.0 in
    let rest = fresh_http last rows hs n h.1 in ground (arith, bound, rest)

fresh_dns :
    (last : ℕ) (rows : List InteractionRow) (ds : List DnsInteraction)
    → All (λ (i : InteractionRow). i.id ≤ last) rows
    → All (λ (d : DnsInteraction). interaction_exists d.interaction_id rows ≡ true) ds
    → find_dns (suc last) ds ≡ none
unfolding find_dns
fresh_dns last rows [] n h = refl
fresh_dns last rows (d ∷ ds) n h =
    let bound = le-of-elem (λ (i : InteractionRow). i.id) last d.interaction_id rows n h.0 in
    let rest = fresh_dns last rows ds n h.1 in ground (arith, bound, rest)

pub find_http-fresh :
    (db : Db) → IsWellFormed db → find_http (suc db.last_interaction) db.http_interactions ≡ none
find_http-fresh db w =
    fresh_http db.last_interaction db.interactions db.http_interactions w.rows_numbered w.http_owned

pub find_dns-fresh :
    (db : Db) → IsWellFormed db → find_dns (suc db.last_interaction) db.dns_interactions ≡ none
find_dns-fresh db w =
    fresh_dns db.last_interaction db.interactions db.dns_interactions w.rows_numbered w.dns_owned
