-- ===== src/Index/Table.antt =====
-- ChatLib/chat-arch/src/index_database.rs: the table `indexed_messages`.
pub mod Mentions
pub mod Laws
use paper_plane.Prelude.{
  ℕ, String, Bool, true, false, not, Option, none, some, List, [], ◌∷◌, ◌++◌, map, str_eq, any,
  find, retain, if◌then◌else◌,
}
use paper_plane.Prelude.Exec.{Result, ok, err, unavailable, duplicate_id}
use paper_plane.Models.{IndexedMessage, Text}
use paper_plane.Index.OrderId.Order.{lt_text}
use Mentions.{join, split}

-- A row holds the mentions in one text.
pub record Row : Type 0 where
  pub id : String
  pub order_id : Text
  pub mentions : Text
  pub reply : Option String
  pub text : String
  pub file_id : Option String
  pub file_path : Option String
  pub peer_id : String

pub record IndexedMessageDatabase : Type 0 where
  pub rows : List Row
  pub online : Bool

abbrev pub has_id : String → Row → Bool
has_id id r = str_eq r.id id

abbrev pub row_of : IndexedMessage → Row
row_of m = record {
  id = m.id;
  order_id = m.order_id;
  mentions = join m.mentions;
  reply = m.reply;
  text = m.text;
  file_id = m.file_id;
  file_path = m.file_path;
  peer_id = m.peer_id;
}

abbrev pub row_to_indexed_message : Row → IndexedMessage
row_to_indexed_message r = record {
  id = r.id;
  order_id = r.order_id;
  mentions = split r.mentions;
  reply = r.reply;
  text = r.text;
  file_id = r.file_id;
  file_path = r.file_path;
  peer_id = r.peer_id;
}

unfoldable pub save : IndexedMessageDatabase → IndexedMessage → Result IndexedMessageDatabase
save db m =
    if db.online
    then (if any (has_id m.id) db.rows
        then err duplicate_id
        else ok (record db { rows = db.rows ++ row_of m ∷ [] }))
    else err unavailable

-- `file_id = ?` holds of no row whose column is NULL.
abbrev pub is_file : String → Row → Bool
is_file file_id r = elim r.file_id [ none ↦ false | some f ↦ str_eq f file_id ]

set_path : String → String → List Row → List Row
set_path file_id path [] = []
set_path file_id path (r ∷ rs) =
    let rest = set_path file_id path rs in
    if is_file file_id r then record r { file_path = some path } ∷ rest else r ∷ rest

-- UPDATE ... RETURNING: the rows that were changed, as they are afterwards.
unfoldable pub update_file_id :
    IndexedMessageDatabase → String → String → Result (IndexedMessageDatabase × List IndexedMessage)
unfolding set_path
update_file_id db file_id path =
    if db.online
    then (let rows = set_path file_id path db.rows in
        ok (record db { rows = rows }, map row_to_indexed_message (retain (is_file file_id) rows)))
    else err unavailable

abbrev pub first_of_rows : Option Row → Option IndexedMessage
first_of_rows none = none
first_of_rows (some r) = some (row_to_indexed_message r)

unfoldable pub get_by_id : IndexedMessageDatabase → String → Result (Option IndexedMessage)
get_by_id db id =
    if db.online then ok (first_of_rows (find (has_id id) db.rows)) else err unavailable

-- ORDER BY order_id, as a stable sort.
place : Row → List Row → List Row
place m [] = m ∷ []
place m (r ∷ rs) = if lt_text r.order_id m.order_id then r ∷ place m rs else m ∷ r ∷ rs

order_by_order_id : List Row → List Row
order_by_order_id [] = []
order_by_order_id (r ∷ rs) = place r (order_by_order_id rs)

unfoldable pub get_all_after_order_id : IndexedMessageDatabase → Text → Result (List IndexedMessage)
unfolding place order_by_order_id lt_text
get_all_after_order_id db from =
    if db.online
    then ok (
        map row_to_indexed_message
          (order_by_order_id (retain (λ r. not (lt_text r.order_id from)) db.rows)))
    else err unavailable
