-- ===== src/Tests/Tables.antt =====
-- Tests of the theorems on the tables and the indexer.
use mathlib.Core.List.{Perm}
use paper_plane.Prelude.{◌≡◌, refl, true, not, none, some, List, [], ◌∷◌, map, retain}
use paper_plane.Prelude.Exec.{ok}
use paper_plane.Models.{DbMessage, IndexedMessage}
use paper_plane.Files.{FileDatabase, FileDescription}
use paper_plane.Peer.{Peer}
use paper_plane.Peers.{PeerDatabase, save_row, get_local_peer, new_peer}
use paper_plane.Peers.Local.{local_peer_lost}
use paper_plane.Events.{message}
use paper_plane.Index.{Indexer, indexed}
use paper_plane.Index.Table.{
  Row, IndexedMessageDatabase, row_of, row_to_indexed_message, get_all_after_order_id,
}
use paper_plane.Index.Table.Laws.{Ascending, get_all_after_order_id_lem}
use paper_plane.Index.OrderId.Order.{lt_text}
use paper_plane.Tests.{sample, keys, anna, hello}

abbrev photo : FileDescription
photo = record { id = "f1"; format = "jpg"; local_path = "/f1.jpg"; timestamp = 0 }

abbrev no_files : FileDatabase
no_files = record { rows = []; online = true }

abbrev one_file : FileDatabase
one_file = record { rows = photo ∷ []; online = true }

abbrev no_peers : PeerDatabase
no_peers = record { rows = []; online = true }

abbrev one_peer : PeerDatabase
one_peer = record { rows = anna ∷ []; online = true }

abbrev forged : Peer
forged = record anna { signing_key = none }

local_peer_lost_example :
    get_local_peer keys (record { rows = forged ∷ []; online = true }) ≡ ok none
unfolding save_row new_peer
local_peer_lost_example =
    local_peer_lost keys 0 "anna" "Anna" "00" forged one_peer
      (record { rows = forged ∷ []; online = true }) (λ e. refl, tt) refl refl

abbrev shown : IndexedMessage
shown = indexed (sample 1 "m1" 3) hello none

abbrev empty_index : IndexedMessageDatabase
empty_index = record { rows = []; online = true }

abbrev one_row : IndexedMessageDatabase
one_row = record { rows = row_of shown ∷ []; online = true }

abbrev with_file : Row
with_file = record (row_of shown) { file_id = some "f1" }

abbrev file_row : IndexedMessageDatabase
file_row = record { rows = with_file ∷ []; online = true }

abbrev path_row : IndexedMessageDatabase
path_row = record { rows = record with_file { file_path = some "/f1.jpg" } ∷ []; online = true }

abbrev with_path_message : IndexedMessage
with_path_message = row_to_indexed_message (record with_file { file_path = some "/f1.jpg" })

get_all_after_order_id_lem_example :
    (rows : List Row) × (get_all_after_order_id file_row [] ≡ ok (map row_to_indexed_message rows))
    × Ascending rows
    × Perm rows (retain (λ r. not (lt_text r.order_id [])) file_row.rows)
get_all_after_order_id_lem_example = get_all_after_order_id_lem file_row [] refl

abbrev indexer_before : Indexer
indexer_before = record { db = empty_index; file_db = no_files; events = [] }

abbrev indexer_after : Indexer
indexer_after = record { db = one_row; file_db = no_files; events = message shown ∷ [] }

abbrev no_payload : DbMessage
no_payload = record (sample 1 "m1" 3) { payload = [] }
