-- ===== src/Index/Table/Laws.antt =====
-- What the statements of index_database.rs promise.
use mathlib.Core.List.{Perm}
use mathlib.Core.List.Perm
use paper_plane.Prelude.{
  ◌≡◌, ◌⊎◌, inl, inr, refl, String, true, false, not, Option, none, some, List, [], ◌∷◌, ◌++◌, map,
  arith, str_eq, eq_iff, any, find, Bool-cases, retain, length, All, is_empty, if◌then◌else◌,
}
use paper_plane.Prelude.Exec.{ok}
use paper_plane.Models.{IndexedMessage, Text}
use paper_plane.Index.OrderId.Order.{lt_text, lt_text_asymm}
use paper_plane.Index.Table.{
  Row, IndexedMessageDatabase, has_id, is_file, row_of, row_to_indexed_message, set_path, place,
  order_by_order_id, save, update_file_id, get_by_id, get_all_after_order_id,
}
use paper_plane.Index.Table.Mentions.{HasNoComma, split-join}

find-append_new :
    (r : Row) (rows : List Row) (id : String)
    → any (has_id r.id) rows ≡ false
    → find (has_id id) (rows ++ r ∷ []) ≡ (if str_eq r.id id then some r else find (has_id id) rows)
find-append_new r [] id h = refl
find-append_new r (x ∷ xs) id h =
    ground (arith, find-append_new r xs id, eq_iff r.id id, eq_iff x.id id, eq_iff x.id r.id)

abbrev pub as_read : IndexedMessage → IndexedMessage
as_read m = record m { mentions = if is_empty m.mentions then [] ∷ [] else m.mentions }

-- A saved message whose mentions hold no comma is read back under its id as it was, except that an
-- empty list of mentions comes back with one empty mention; other ids find what they found before.
pub get_by_id-save :
    (db db' : IndexedMessageDatabase) (m : IndexedMessage) (id : String)
    → All HasNoComma m.mentions
    → save db m ≡ ok db'
    → get_by_id db' id ≡ (if str_eq m.id id then ok (some (as_read m)) else get_by_id db id)
unfolding get_by_id save
get_by_id-save db db' m id h e =
    ground (arith, find-append_new (row_of m) db.rows id, split-join m.mentions h)

abbrev pub with_path : String → String → Row → Row
with_path file_id path r = if is_file file_id r then record r { file_path = some path } else r

set_path-eq-map :
    (file_id path : String) (rows : List Row)
    → set_path file_id path rows ≡ map (with_path file_id path) rows
unfolding set_path
set_path-eq-map file_id path [] = refl
set_path-eq-map file_id path (r ∷ rs) = ground (arith, set_path-eq-map file_id path rs)

abbrev pub HasPath : String → String → IndexedMessage → Type 0
HasPath file_id path m = (m.file_id ≡ some file_id) × (m.file_path ≡ some path)

returned-HasPath :
    (file_id path : String) (rows : List Row)
    → All
        (HasPath file_id path)
        (map row_to_indexed_message (retain (is_file file_id) (set_path file_id path rows)))
unfolding set_path
returned-HasPath file_id path [] = tt
returned-HasPath file_id path (r ∷ rs) = elim (some_file r.file_id) [
  | inl (f, e) ↦ ground (arith, returned-HasPath file_id path rs, eq_iff f file_id)
  | inr e ↦ ground (arith, returned-HasPath file_id path rs)
]
  where
    some_file : (o : Option String) → ((f : String) × (o ≡ some f)) ⊎ (o ≡ none)
    some_file none = inr refl
    some_file (some f) = inl (f, refl)

length-returned :
    (file_id path : String) (rows : List Row)
    → length (map row_to_indexed_message (retain (is_file file_id) (set_path file_id path rows)))
      ≡ length (retain (is_file file_id) rows)
unfolding set_path
length-returned file_id path [] = refl
length-returned file_id path (r ∷ rs) = ground (arith, length-returned file_id path rs)

-- When the path of a file is set, every row of the file gets the path and no other row changes;
-- what comes back are as many messages as there are rows of the file, each of the file and with
-- the path.
pub update_file_id_lem :
    (db db' : IndexedMessageDatabase) (file_id path : String) (out : List IndexedMessage)
    → update_file_id db file_id path ≡ ok (db', out)
    → (db'.rows ≡ map (with_path file_id path) db.rows)
      × All (HasPath file_id path) out
      × (length out ≡ length (retain (is_file file_id) db.rows))
unfolding update_file_id
update_file_id_lem db db' file_id path out e = ground (
  arith,
  set_path-eq-map file_id path db.rows,
  returned-HasPath file_id path db.rows,
  length-returned file_id path db.rows,
)

-- No order id is below the one before it.
abbrev pub Ascending : List Row → Type 0
Ascending [] = Unit {0}
Ascending (r ∷ []) = Unit {0}
Ascending (r ∷ s ∷ rs) = (lt_text s.order_id r.order_id ≡ false) × Ascending (s ∷ rs)

place-Ascending : (m : Row) (rs : List Row) → Ascending rs → Ascending (place m rs)
unfolding place
place-Ascending m [] h = tt
place-Ascending m (r ∷ []) h = ground (arith, lt_text_asymm r.order_id m.order_id)
place-Ascending m (r ∷ s ∷ rs) h =
    ground (arith, lt_text_asymm r.order_id m.order_id, place-Ascending m (s ∷ rs) h.1)

order_by_order_id-Ascending : (rs : List Row) → Ascending (order_by_order_id rs)
unfolding order_by_order_id
order_by_order_id-Ascending [] = tt
order_by_order_id-Ascending (r ∷ rs) =
    place-Ascending r (order_by_order_id rs) (order_by_order_id-Ascending rs)

place-perm : (m : Row) (rs : List Row) → Perm (place m rs) (m ∷ rs)
unfolding place
place-perm m [] = Perm.refl (m ∷ [])
place-perm m (r ∷ rs) = elim (Bool-cases (lt_text r.order_id m.order_id)) [
  | inl below ↦ rw (below, place) (Perm.trans (Perm.cons r (place-perm m rs)) (Perm.swap m r rs))
  | inr above ↦ rw (above, place) (Perm.refl (m ∷ r ∷ rs))
]

order_by_order_id-perm : (rs : List Row) → Perm (order_by_order_id rs) rs
unfolding order_by_order_id
order_by_order_id-perm [] = Perm.refl []
order_by_order_id-perm (r ∷ rs) =
    Perm.trans (place-perm r (order_by_order_id rs)) (Perm.cons r (order_by_order_id-perm rs))

-- On a database that answers, the messages from an order id on are those of the rows that are not
-- below it, each once, in the order of the order ids.
pub get_all_after_order_id_lem :
    (db : IndexedMessageDatabase) (from : Text)
    → db.online ≡ true
    → (rows : List Row) × (get_all_after_order_id db from ≡ ok (map row_to_indexed_message rows))
      × Ascending rows
      × Perm rows (retain (λ r. not (lt_text r.order_id from)) db.rows)
unfolding get_all_after_order_id
get_all_after_order_id_lem db from up =
    let chosen = retain (λ (r : Row). not (lt_text r.order_id from)) db.rows in
    (
      order_by_order_id chosen,
      ground arith,
      order_by_order_id-Ascending chosen,
      order_by_order_id-perm chosen,
    )
