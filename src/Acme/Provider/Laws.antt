-- ===== src/Acme/Provider/Laws.antt =====
-- What the provider publishes and withdraws, record by record.
use oastrix.Prelude.{◌≡◌, refl, ◌∙◌, Str, Bool, true, false, ◌&&◌, ◌||◌, not, List, [], ◌∷◌, arith}
use oastrix.Acme.TxtStore.{TxtStore}
use oastrix.Acme.TxtStore.Laws.{holds, same_record, holds-add, holds-remove}
use oastrix.Acme.Provider.{
  Rr, is_txt, absolute_name, append_record, delete_record, append_records, delete_records,
}

-- Whether some TXT record of a list, taken in a zone, is the record of that name and value.
abbrev pub listed : Str → List Rr → Str → Str → Bool
listed zone [] m w = false
listed zone (rr ∷ recs) m w =
    (is_txt rr && same_record (absolute_name zone rr.name) rr.content m w) || listed zone recs m w

-- After `AppendRecords` the store publishes the TXT records of the list and what it published
-- before, and no others.
pub holds-append_records :
    (zone : Str) (recs : List Rr) (s : TxtStore) (m w : Str)
    → holds (append_records zone recs s) m w ≡ (listed zone recs m w || holds s m w)
unfolding append_records
holds-append_records zone [] s m w = refl
holds-append_records zone (rr ∷ recs) s m w = ground (
  arith,
  holds-append_records zone recs (append_record zone rr s) m w,
  holds-add s (absolute_name zone rr.name) rr.content m w,
)

-- After `DeleteRecords` the store publishes what it published before, less the TXT records of
-- the list.
pub holds-delete_records :
    (zone : Str) (recs : List Rr) (s : TxtStore) (m w : Str)
    → holds (delete_records zone recs s) m w ≡ (not (listed zone recs m w) && holds s m w)
unfolding delete_records
holds-delete_records zone [] s m w = refl
holds-delete_records zone (rr ∷ recs) s m w = ground (
  arith,
  holds-delete_records zone recs (delete_record zone rr s) m w,
  holds-remove s (absolute_name zone rr.name) rr.content m w,
)

-- Records that are appended and then deleted leave what the store publishes under every name as it
-- was, if none of them was published before.
pub delete-append_records :
    (zone : Str) (recs : List Rr) (s : TxtStore)
    → ((m w : Str) → listed zone recs m w ≡ true → holds s m w ≡ false)
    → (m w : Str) → holds (delete_records zone recs (append_records zone recs s)) m w ≡ holds s m w
delete-append_records zone recs s fresh m w =
    holds-delete_records zone recs (append_records zone recs s) m w
    ∙ ground (arith, holds-append_records zone recs s m w, fresh m w)
