-- ===== src/Sync/Serve.antt =====
-- `handle_request` of sync_engine.rs, a handler for each request; an answer is the messages that
-- are sent before the end-of-stream frame.
use paper_plane.Prelude.{
  ℕ, String, Option, none, some, List, [], ◌∷◌, map, ◌==◌, leb, contains, retain, if◌then◌else◌,
}
use paper_plane.Prelude.Word.{as_i32, i32_as_u64}
use paper_plane.Prelude.Exec.{
  ok, err, Exec, pure, fail, lift, gets, or_fail, ◌>>=◌, ◌>>◌, no_variant, unknown_message,
  file_not_found,
}
use paper_plane.Models.{Message, MessagePayload, from_message, into_message}
use paper_plane.Events.{send_peer}
use paper_plane.Files
use paper_plane.Peer.{Peer}
use paper_plane.Peers.{Keys, PeerMessage, new_peer, into_peer_message, get_peer_by_id}
use paper_plane.Peers
use paper_plane.Node.{Node, cur_counter}
use paper_plane.Repository.{get_messages, insert_message_batch}
use paper_plane.Manager.{get_or_create_repository, get_repo_states}
use paper_plane.Sync.{
  Variant, ComparePayload, file_download_request, messages, message_accept, batch_message_request,
  batch_message_response, compare_request, compare_response, file_want_request, file_want_response,
}
use paper_plane.Sync.Compare.{behind}
use paper_plane.Sync.Transfer.{Disk, upload_file}

-- What the engine calls and does not implement: the codec of payloads, the keys, the clock's
-- reading, the driver's reading of NULL, and the file system.
pub record World : Type 0 where
  pub decode : List ℕ → Option MessagePayload
  pub keys : Keys
  pub now : ℕ
  pub null : ℕ
  pub disk : Disk

-- The result of a call is dropped, its effect stays.
abbrev pub ignore : Exec Node (Unit {0}) → Exec Node (Unit {0})
ignore m n = (ok tt, (m n).1)

-- `save_peer` of peer_database.rs: the row, then the event.
unfoldable pub save_peer : Peer → Exec Node (Unit {0})
save_peer p n = elim (Peers.save_row n.peers p) [
  | err e ↦ (err e, n)
  | ok db ↦ (
    ok tt,
    record n { peers = db; indexer = record (n.indexer) { events = send_peer p n.indexer.events } },
  )
]

module _ (w : World) where
  -- `if let Some(peer) = ...`
  unfoldable pub accept_peer : Option PeerMessage → Exec Node (Unit {0})
  unfolding save_peer
  accept_peer none = pure tt
  accept_peer (some p) = do
    peer ← lift (new_peer w.keys w.now p.id p.name p.pub_key)
    save_peer peer

  unfoldable pub serve_messages :
      List Message → String → Option PeerMessage → Exec Node (List Variant)
  unfolding accept_peer
  serve_messages ms peer_id peer = do
    accept_peer peer
    get_or_create_repository w.null peer_id
    ignore (insert_message_batch w.decode peer_id (map from_message ms))
    counter ← gets (cur_counter peer_id)
    pure (message_accept (as_i32 counter) ∷ [])

  unfoldable pub serve_file_want : List String → Exec Node (List Variant)
  serve_file_want file_ids = do
    files ← gets (λ n. n.indexer.file_db)
    all_file_ids ← lift (Files.all_file_ids files)
    pure (file_want_response (retain (contains all_file_ids) file_ids) ∷ [])

  -- The peer of the repository, which goes along with a first answer.
  unfoldable pub first_peer : String → ℕ → Exec Node (Option Peer)
  first_peer id their_counter n =
      if their_counter == 0 then (get_peer_by_id w.keys n.peers id, n) else (ok none, n)

  abbrev pub peer_message : Option Peer → Option PeerMessage
  peer_message none = none
  peer_message (some p) = some (into_peer_message p)

  unfoldable pub answer_batch : String → ℕ → Exec Node (List Variant)
  unfolding first_peer
  answer_batch id their_counter = do
    peer ← first_peer id their_counter
    found ← gets (get_messages id their_counter)
    ms ← lift found
    pure (batch_message_response (map into_message ms) (peer_message peer) ∷ [])

  unfoldable pub serve_batch : ℕ → String → Exec Node (List Variant)
  unfolding answer_batch
  serve_batch counter id = do
    get_or_create_repository w.null id
    my_counter ← gets (cur_counter id)
    if leb my_counter (i32_as_u64 counter)
        then pure (batch_message_response [] none ∷ [])
        else answer_batch id (i32_as_u64 counter)

  unfoldable pub serve_compare : List ComparePayload → Exec Node (List Variant)
  serve_compare payload = do
    my_states ← get_repo_states w.null
    pure (compare_response (behind my_states payload) ∷ [])

  unfoldable pub serve_download : String → Exec Node (List Variant)
  serve_download file_id = do
    files ← gets (λ n. n.indexer.file_db)
    found ← lift (Files.get_by_id files file_id)
    file ← or_fail found file_not_found
    lift (upload_file w.disk file.local_path)

  -- Unwrapping a message with no variant panics.
  unfoldable pub handle_request : Option Variant → Exec Node (List Variant)
  unfolding serve_messages serve_file_want serve_batch serve_compare serve_download
  handle_request none = fail no_variant
  handle_request (some (file_download_request file_id peer_id)) = serve_download file_id
  handle_request (some (messages ms peer_id peer)) = serve_messages ms peer_id peer
  handle_request (some (file_want_request file_ids)) = serve_file_want file_ids
  handle_request (some (batch_message_request counter peer_id)) = serve_batch counter peer_id
  handle_request (some (compare_request payload)) = serve_compare payload
  handle_request (some _) = fail unknown_message
