-- ===== src/Sync/Reachable.antt =====
-- What a node goes through as the engine answers requests and finishes tasks, in any order.
use paper_plane.Prelude.{
  ℕ, ◌≡◌, refl, ◌∙◌, ◌⊎◌, inl, inr, String, true, Option, none, some, List, [], ◌∷◌, map, arith,
}
use paper_plane.Prelude.Exec.{Result-cases}
use paper_plane.Models.{DbMessage, Message, from_message}
use paper_plane.Messages.{get_peers}
use paper_plane.Peers.{PeerMessage}
use paper_plane.Node.{Node}
use paper_plane.Requests.{RepoState}
use paper_plane.Repository.{insert_message_batch}
use paper_plane.Repository.Alive.{insert_message_batch-alive}
use paper_plane.Manager.{get_or_create_repository, get_repo_states, repo_states}
use paper_plane.Manager.Clock.{IsClock, insert_message_batch-IsClock, get_or_create_frame}
use paper_plane.Sync.{
  Variant, ComparePayload, file_download_request, file_download_response, messages, message_accept,
  batch_message_request, batch_message_response, compare_request, compare_response,
  file_want_request, file_want_response,
}
use paper_plane.Sync.Serve.{
  World, accept_peer, serve_messages, serve_file_want, serve_batch, answer_batch, first_peer,
  serve_compare, serve_download, handle_request,
}
use paper_plane.Sync.Tasks.{finish_batch, finish_message, finish_compare, finish_file_want}

pub data Step (w : World) : Node → Node → Type 0 where
  request : (v : Option Variant) (n : Node) → Step w n (handle_request w v n).1
  batch_done :
      (repo_id : String) (v : Option Variant) (n : Node) → Step w n (finish_batch w repo_id v n).1
  message_done : (v : Option Variant) (n : Node) → Step w n (finish_message v n).1
  compare_done :
      (peer_id : String) (states : List RepoState) (v : Option Variant) (n : Node)
      → Step w n (finish_compare peer_id states v n).1
  file_want_done :
      (peer_id : String) (v : Option Variant) (n : Node) → Step w n (finish_file_want peer_id v n).1

pub data Steps (w : World) : Node → Node → Type 0 where
  rest : (n : Node) → Steps w n n
  followed : (a b c : Node) → Steps w a b → Step w b c → Steps w a c

-- The manager is alive and its counter is at least the order of every row.
abbrev pub Timed : Node → Type 0
Timed n = (n.manager_alive ≡ true) × IsClock n

-- Nothing that the clock depends on has changed.
abbrev pub SameClock : Node → Node → Type 0
SameClock a b =
    (b.db ≡ a.db) × (b.counter_lock ≡ a.counter_lock) × (b.manager_alive ≡ a.manager_alive)

SameClock-Timed : (a b : Node) → SameClock a b → Timed a → Timed b
SameClock-Timed a b (db, lock, alive) h = (alive ∙ h.0, rw (db, lock) (h.1))

accept_peer-SameClock :
    (w : World) (p : Option PeerMessage) (n : Node) → SameClock n (accept_peer w p n).1
unfolding accept_peer
accept_peer-SameClock w none n = (refl, refl, refl)
accept_peer-SameClock w (some p) n = ground arith

module _ (w : World) where
  insert-Timed :
      (id : String) (ms : List DbMessage) (n : Node)
      → Timed n
      → Timed (insert_message_batch w.decode id ms n).1
  insert-Timed id ms n h = (
    insert_message_batch-alive w.decode id ms n ∙ h.0,
    insert_message_batch-IsClock w.decode id ms n h.0 h.1,
  )

  abbrev pub opened : String → Node → Node
  opened id n = (get_or_create_repository w.null id n).1

  open-Timed : (id : String) (n : Node) → Timed n → Timed (opened id n)
  open-Timed id n h = SameClock-Timed n (opened id n) (get_or_create_frame w.null id n) h

  pub repo_states_run :
      (id : String) (ids : List String) (n : Node)
      → (repo_states w.null (id ∷ ids) n).1 ≡ (repo_states w.null ids (opened id n)).1
  unfolding repo_states get_or_create_repository
  repo_states_run id ids n = ground arith

  repo_states-Timed : (ids : List String) (n : Node) → Timed n → Timed (repo_states w.null ids n).1
  repo_states-Timed [] n h = unfold repo_states in h
  repo_states-Timed (id ∷ ids) n h =
      rw (repo_states_run id ids n) (repo_states-Timed ids (opened id n) (open-Timed id n h))

  compare-Timed :
      (payload : List ComparePayload) (n : Node) → Timed n → Timed (serve_compare w payload n).1
  unfolding serve_compare get_repo_states
  compare-Timed payload n h = elim (Result-cases (get_peers n.db)) [
    | inr (e, failed) ↦ ground arith
    | inl (ids, found) ↦ ground (arith, repo_states-Timed ids n h)
  ]

  -- The peer that comes along, the repository, the batch.
  abbrev pub received : List Message → String → Option PeerMessage → Node → Node
  received ms id p n =
      (insert_message_batch w.decode id (map from_message ms) (opened id (accept_peer w p n).1)).1

  accepted-Timed : (p : Option PeerMessage) (n : Node) → Timed n → Timed (accept_peer w p n).1
  accepted-Timed p n h = SameClock-Timed n (accept_peer w p n).1 (accept_peer-SameClock w p n) h

  received-Timed :
      (ms : List Message) (id : String) (p : Option PeerMessage) (n : Node)
      → Timed n
      → Timed (received ms id p n)
  received-Timed ms id p n h =
      insert-Timed id (map from_message ms) (opened id (accept_peer w p n).1)
        (open-Timed id (accept_peer w p n).1 (accepted-Timed p n h))

  pub serve_messages_run :
      (ms : List Message) (id : String) (p : Option PeerMessage) (n : Node)
      → ((serve_messages w ms id p n).1 ≡ (accept_peer w p n).1)
        ⊎ ((serve_messages w ms id p n).1 ≡ received ms id p n)
  unfolding serve_messages get_or_create_repository
  serve_messages_run ms id p n = elim (Result-cases (accept_peer w p n).0) [
    | inr (e, refused) ↦ inl (ground arith)
    | inl (u, fine) ↦ inr (ground arith)
  ]

  messages-Timed :
      (ms : List Message) (id : String) (p : Option PeerMessage) (n : Node)
      → Timed n
      → Timed (serve_messages w ms id p n).1
  messages-Timed ms id p n h = elim (serve_messages_run ms id p n) [
    | inl refused ↦ rw refused (accepted-Timed p n h)
    | inr done ↦ rw done (received-Timed ms id p n h)
  ]

  pub finish_batch_run :
      (ms : List Message) (id : String) (p : Option PeerMessage) (n : Node)
      → ((finish_batch w id (some (batch_message_response ms p)) n).1 ≡ (accept_peer w p n).1)
        ⊎ ((finish_batch w id (some (batch_message_response ms p)) n).1 ≡ received ms id p n)
  unfolding finish_batch get_or_create_repository
  finish_batch_run ms id p n = elim (Result-cases (accept_peer w p n).0) [
    | inr (e, refused) ↦ inl (ground arith)
    | inl (u, fine) ↦ inr (ground arith)
  ]

  batch_response-Timed :
      (ms : List Message) (id : String) (p : Option PeerMessage) (n : Node)
      → Timed n
      → Timed (finish_batch w id (some (batch_message_response ms p)) n).1
  batch_response-Timed ms id p n h = elim (finish_batch_run ms id p n) [
    | inl refused ↦ rw refused (accepted-Timed p n h)
    | inr done ↦ rw done (received-Timed ms id p n h)
  ]

  pub batch-SameClock :
      (c : ℕ) (id : String) (n : Node) → SameClock (opened id n) (serve_batch w c id n).1
  unfolding serve_batch answer_batch first_peer get_or_create_repository
  batch-SameClock c id n = ground arith

  batch-Timed : (c : ℕ) (id : String) (n : Node) → Timed n → Timed (serve_batch w c id n).1
  batch-Timed c id n h =
      SameClock-Timed (opened id n) (serve_batch w c id n).1 (batch-SameClock c id n)
        (open-Timed id n h)

  request-Timed : (v : Option Variant) (n : Node) → Timed n → Timed (handle_request w v n).1
  unfolding handle_request serve_file_want serve_download
  request-Timed none n h = h
  request-Timed (some (file_download_request f p)) n h = ground arith
  request-Timed (some (file_download_response c l e)) n h = h
  request-Timed (some (messages ms id p)) n h = messages-Timed ms id p n h
  request-Timed (some (message_accept c)) n h = h
  request-Timed (some (batch_message_request c id)) n h = batch-Timed c id n h
  request-Timed (some (batch_message_response ms p)) n h = h
  request-Timed (some (compare_request payload)) n h = compare-Timed payload n h
  request-Timed (some (compare_response ids)) n h = h
  request-Timed (some (file_want_request fs)) n h = ground arith
  request-Timed (some (file_want_response fs)) n h = h

  batch_done-Timed :
      (id : String) (v : Option Variant) (n : Node) → Timed n → Timed (finish_batch w id v n).1
  unfolding finish_batch
  batch_done-Timed id none n h = h
  batch_done-Timed id (some (file_download_request f p)) n h = h
  batch_done-Timed id (some (file_download_response c l e)) n h = h
  batch_done-Timed id (some (messages ms i p)) n h = h
  batch_done-Timed id (some (message_accept c)) n h = h
  batch_done-Timed id (some (batch_message_request c i)) n h = h
  batch_done-Timed id (some (batch_message_response ms p)) n h = batch_response-Timed ms id p n h
  batch_done-Timed id (some (compare_request payload)) n h = h
  batch_done-Timed id (some (compare_response ids)) n h = h
  batch_done-Timed id (some (file_want_request fs)) n h = h
  batch_done-Timed id (some (file_want_response fs)) n h = h

  other_done-SameClock :
      (peer_id : String) (states : List RepoState) (v : Option Variant) (n : Node)
      → SameClock n (finish_message v n).1
        × SameClock n (finish_compare peer_id states v n).1
        × SameClock n (finish_file_want peer_id v n).1
  unfolding finish_message finish_compare finish_file_want
  other_done-SameClock peer_id states v n = ground arith

  Step-Timed : (a b : Node) → Step w a b → Timed a → Timed b
  Step-Timed a b (request v n) h = request-Timed v n h
  Step-Timed a b (batch_done id v n) h = batch_done-Timed id v n h
  Step-Timed a b (message_done v n) h =
      SameClock-Timed n (finish_message v n).1 (other_done-SameClock "" [] v n).0 h
  Step-Timed a b (compare_done peer_id states v n) h =
      SameClock-Timed n (finish_compare peer_id states v n).1
        (other_done-SameClock peer_id states v n).1 h
  Step-Timed a b (file_want_done peer_id v n) h =
      SameClock-Timed n (finish_file_want peer_id v n).1 (other_done-SameClock peer_id [] v n).2 h

  -- Whatever requests a node answers and whatever answers its tasks are given, in any order and
  -- any number, the manager stays alive and the order counter is at least the order of every row,
  -- if this is so at the start.
  pub Steps-Timed : (a b : Node) → Steps w a b → Timed a → Timed b
  Steps-Timed a b (rest n) h = h
  Steps-Timed a b (followed _ c _ path last) h = Step-Timed c b last (Steps-Timed a c path h)
