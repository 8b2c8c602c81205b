-- ===== src/Acme/Provider.antt =====
-- The libdns provider over the TXT record store: internal/acme/provider.go. A record is what
-- `r.RR()` returns of it. The methods return their argument and no error.
pub mod Laws
use oastrix.Acme.TxtStore
use oastrix.Prelude.{
  Str, bytes, Bool, List, [], ◌∷◌, ◌++◌, if◌then◌else◌, ◌||◌, str_eq, to_lower, trim_suffix,
  has_suffix,
}
use oastrix.Acme.TxtStore.{TxtStore}

pub record Rr : Type 0 where
  pub name : Str
  pub type : Str
  pub content : Str

-- `strings.EqualFold(rr.Type, "TXT")`: no letter but those of ASCII folds to one of these.
unfoldable pub is_txt : Rr → Bool
is_txt rr = str_eq (to_lower rr.type) (bytes "txt")

unfoldable pub absolute_name : Str → Str → Str
absolute_name zone name =
    let zone' = trim_suffix (to_lower zone) (bytes ".") in
    let name' = trim_suffix (to_lower name) (bytes ".") in
    if has_suffix name' zone'
    then name'
    else if str_eq name' [] || str_eq name' (bytes ".")
    then zone'
    else name' ++ (bytes "." ++ zone')

abbrev append_record : Str → Rr → TxtStore → TxtStore
append_record zone rr s =
    if is_txt rr then TxtStore.add (absolute_name zone rr.name) rr.content s else s

unfoldable pub append_records : Str → List Rr → TxtStore → TxtStore
append_records zone [] s = s
append_records zone (rr ∷ recs) s = append_records zone recs (append_record zone rr s)

abbrev delete_record : Str → Rr → TxtStore → TxtStore
delete_record zone rr s =
    if is_txt rr then TxtStore.remove (absolute_name zone rr.name) rr.content s else s

unfoldable pub delete_records : Str → List Rr → TxtStore → TxtStore
delete_records zone [] s = s
delete_records zone (rr ∷ recs) s = delete_records zone recs (delete_record zone rr s)
