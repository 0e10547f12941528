-- ===== src/Index.antt =====
-- ChatLib/chat-arch/src/indexer.rs
pub mod OrderId
pub mod Table
pub mod Laws
use paper_plane.Prelude.{
  ℕ, String, Bool, true, false, ◌≡◌, Option, none, some, List, [], ◌∷◌, ◌++◌, str_eq, if◌then◌else◌,
}
use paper_plane.Prelude.Exec.{
  Result, ok, err, Exec, lift, gets, modify, or_fail, bad_payload, ◌>>=◌, ◌>>◌, pure,
}
use paper_plane.Models.{DbMessage, IndexedMessage, MessagePayload, Text}
use paper_plane.Events.{Events, send_message}
use paper_plane.Files
use paper_plane.Files.{FileDatabase, FileDescription}
use OrderId.{order_id}
use Table.{IndexedMessageDatabase}
use Table

pub record Indexer : Type 0 where
  pub db : IndexedMessageDatabase
  pub file_db : FileDatabase
  pub events : Events

-- `None` for an empty text of the payload.
abbrev pub non_empty : String → Option String
non_empty s = if str_eq s "" then none else some s

abbrev pub local_path : Option FileDescription → Option String
local_path none = none
local_path (some f) = some f.local_path

-- The path of the file that a payload names, if it names one that is known.
abbrev pub file_path : FileDatabase → String → Result (Option String)
file_path files id =
    if str_eq id ""
    then ok none
    else elim (Files.get_by_id files id) [ ok f ↦ ok (local_path f) | err e ↦ err e ]

abbrev pub indexed : DbMessage → MessagePayload → Option String → IndexedMessage
indexed m payload path = record {
  id = m.id;
  order_id = order_id m.order m.peer_id;
  mentions = payload.mentions;
  reply = non_empty payload.reply_id;
  text = payload.text;
  file_id = non_empty payload.file_id;
  file_path = path;
  peer_id = m.peer_id;
}

-- `decode` is prost's `MessagePayload::decode`.
module _ (decode : List ℕ → Option MessagePayload) where
  unfoldable pub process_message : DbMessage → Exec Indexer IndexedMessage
  process_message m = do
    payload ← or_fail (decode m.payload) bad_payload
    files ← gets (λ s. s.file_db)
    path ← lift (file_path files payload.file_id)
    pure (indexed m payload path)

  save_row : IndexedMessage → Exec Indexer (Unit {0})
  save_row m s = elim (Table.save s.db m) [
    | ok db ↦ (ok tt, record s { db = db })
    | err e ↦ (err e, s)
  ]

  unfoldable pub index_message : DbMessage → Exec Indexer (Unit {0})
  unfolding process_message save_row
  index_message m = do
    indexed_message ← process_message m
    save_row indexed_message
    modify (λ s. record s { events = send_message indexed_message s.events })

  unfoldable pub index_messages : List DbMessage → Exec Indexer (Unit {0})
  unfolding index_message
  index_messages [] = pure tt
  index_messages (m ∷ ms) = do index_message m; index_messages ms

abbrev send_all : List IndexedMessage → Events → Events
send_all [] tx = tx
send_all (m ∷ ms) tx = send_all ms (send_message m tx)

unfoldable pub index_file_path : String → String → Exec Indexer (Unit {0})
index_file_path file_id path s = elim (Table.update_file_id s.db file_id path) [
  | ok (db, messages) ↦ (ok tt, record s { db = db; events = send_all messages s.events })
  | err e ↦ (err e, s)
]

unfoldable pub get_all_after_order_id : Indexer → Text → Result (List IndexedMessage)
get_all_after_order_id s from = Table.get_all_after_order_id s.db from
