-- ===== src/Sync/Tasks.antt =====
-- The tasks of sync_engine.rs: the request that each sends, and what it does with the first message
-- of the answer, `none` if there is none or it is empty. Connections are not modelled: a task whose
-- peer is not reached ends with an error before it has changed anything.
use paper_plane.Prelude.{
  ℕ, String, Option, none, some, List, [], ◌∷◌, ◌++◌, map, ◌==◌, if◌then◌else◌,
}
use paper_plane.Prelude.Word.{as_i32}
use paper_plane.Prelude.Exec.{
  Result, ok, err, Exec, pure, fail, modify, ◌>>◌, unexpected_response, index_out_of_bounds,
}
use paper_plane.Models.{DbMessage, from_message, into_message}
use paper_plane.Peer.{Peer}
use paper_plane.Peers.{get_peer_by_id, into_peer_message}
use paper_plane.Node.{Node}
use paper_plane.Requests.{RepoState}
use paper_plane.Repository.{insert_message_batch}
use paper_plane.Resolver.{add_peer_have_many}
use paper_plane.Manager.{get_or_create_repository}
use paper_plane.Sync.{
  Variant, messages, message_accept, batch_message_request, batch_message_response, compare_request,
  compare_response, file_want_request, file_want_response,
}
use paper_plane.Sync.Compare.{compare_payload, batch_requests}
use paper_plane.Sync.Serve.{World, accept_peer}

-- The first message of an answer.
abbrev pub first : List Variant → Option Variant
first [] = none
first (v ∷ vs) = some v

-- `BatchRequestTask`
abbrev pub batch_request : ℕ → String → Variant
batch_request counter repo_id = batch_message_request (as_i32 counter) repo_id

unfoldable pub finish_batch : World → String → Option Variant → Exec Node (Unit {0})
finish_batch w repo_id (some (batch_message_response ms peer)) = do
  accept_peer w peer
  get_or_create_repository w.null repo_id
  insert_message_batch w.decode repo_id (map from_message ms)
finish_batch w repo_id _ = fail unexpected_response

-- `MessageTask`: the peer goes along with a message of counter 0.
pub first_peer : World → DbMessage → Node → Result (Option Peer)
first_peer w m n = if m.counter == 0 then get_peer_by_id w.keys n.peers m.peer_id else ok none

unfoldable pub message_request : World → List DbMessage → Exec Node Variant
unfolding first_peer
message_request w [] n = (err index_out_of_bounds, n)
message_request w (m ∷ ms) n = elim (first_peer w m n) [
  | ok none ↦ (ok (messages (map into_message (m ∷ ms)) m.peer_id none), n)
  | ok (some p) ↦
      (ok (messages (map into_message (m ∷ ms)) m.peer_id (some (into_peer_message p))), n)
  | err e ↦ (err e, n)
]

unfoldable pub finish_message : Option Variant → Exec Node (Unit {0})
finish_message (some (message_accept counter)) = pure tt
finish_message _ = fail unexpected_response

-- `CompareStateTask`
abbrev pub compare_state_request : List RepoState → Variant
compare_state_request repo_states = compare_request (compare_payload repo_states)

unfoldable pub finish_compare : String → List RepoState → Option Variant → Exec Node (Unit {0})
finish_compare peer_id repo_states (some (compare_response ids)) =
    modify (λ n. record n { queue = n.queue ++ batch_requests peer_id repo_states ids })
finish_compare peer_id repo_states _ = fail unexpected_response

-- `FileWantTask`
abbrev pub file_want : List String → Variant
file_want file_ids = file_want_request file_ids

unfoldable pub finish_file_want : String → Option Variant → Exec Node (Unit {0})
finish_file_want peer_id (some (file_want_response ids)) =
    modify (λ n. record n { storage = add_peer_have_many ids peer_id n.storage })
finish_file_want peer_id _ = fail unexpected_response
