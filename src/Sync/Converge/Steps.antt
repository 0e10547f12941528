-- ===== src/Sync/Converge/Steps.antt =====
-- The halves of a batch exchange: the answer, and what the receiver makes of it.
use paper_plane.Prelude.{
  All-drop, ℕ, ◌-◌, ◌^◌, ◌≤◌, ◌<◌, ◌≡◌, refl, ap, ◌∙◌, String, true, false, Option, none, some,
  List, [], ◌∷◌, map, arith, leb, ◌==◌, length, drop, if◌then◌else◌,
}
use paper_plane.Prelude.Word.{as_i32, i32_as_u64, i32_round_trip}
use paper_plane.Prelude.Exec.{Result, ok}
use paper_plane.Models.{DbMessage, Message, from_message, into_message}
use paper_plane.Messages.{MessageDatabase}
use paper_plane.Messages.Log.{log, Numbered-All-lt}
use paper_plane.Messages.Query.{get_after-log, read_rows_ok, Orders}
use paper_plane.Node.{Node, cur_counter, set_counter}
use paper_plane.Peer.{Peer}
use paper_plane.Peers.{get_peer_by_id, PeerMessage}
use paper_plane.Repository.{get_messages, insert_message_batch}
use paper_plane.Manager.{get_or_create_repository}
use paper_plane.Manager.Recover.{HasLog, HasLog-congr, get_or_create_repository-IsLog}
use paper_plane.Sync.{Variant, batch_message_response}
use paper_plane.Sync.Serve.{World, accept_peer, peer_message, serve_batch, answer_batch}
use paper_plane.Sync.Tasks.{finish_batch}

-- What a peer changes that comes with messages: neither table nor counter of the repositories.
pub accept_peer_frame :
    (w : World) (p : Option PeerMessage) (n : Node)
    → ((accept_peer w p n).1.db ≡ n.db) × ((accept_peer w p n).1.repositories ≡ n.repositories)
unfolding accept_peer
accept_peer_frame w none n = (refl, refl)
accept_peer_frame w (some p) n = ground arith

pub accept_peer-HasLog :
    (w : World) (p : Option PeerMessage) (id : String) (n : Node)
    → HasLog id n
    → HasLog id (accept_peer w p n).1
accept_peer-HasLog w p id n h =
    let (db, repositories) = accept_peer_frame w p n in
    HasLog-congr id n (accept_peer w p n).1 db repositories h

-- `serve_batch` once the repository is open.
pub serve_run :
    (w : World) (counter : ℕ) (id : String) (b : Node)
    → let n = (get_or_create_repository w.null id b).1 in
      serve_batch w counter id b ≡ (
        if leb (cur_counter id n) (i32_as_u64 counter)
        then (ok (batch_message_response [] none ∷ []), n)
        else answer_batch w id (i32_as_u64 counter) n)
unfolding serve_batch get_or_create_repository
serve_run w counter id b = ground arith

get_or_create-peers :
    (null : ℕ) (id : String) (n : Node) → (get_or_create_repository null id n).1.peers ≡ n.peers
unfolding get_or_create_repository set_counter
get_or_create-peers null id n = ground arith

-- The peer that goes along: the one of the table with a first answer, else none.
abbrev pub offered : ℕ → Option Peer → Option Peer
offered c p = if c == 0 then p else none

answer_run :
    (w : World) (id : String) (c : ℕ) (n : Node) (p : Option Peer) {ms : List DbMessage}
    → get_peer_by_id w.keys n.peers id ≡ ok p
    → get_messages id c n ≡ ok ms
    → (answer_batch w id c n).0
      ≡ ok (batch_message_response (map into_message ms) (peer_message w (offered c p)) ∷ [])
unfolding answer_batch
answer_run w id c n p peer found = ground arith

-- The answer of a node that has more, and of one that has not.
pub answer_more :
    (w : World) (id : String) (c : ℕ) (b : Node) (p : Option Peer)
    → w.null ≡ 0
    → b.db.online ≡ true
    → HasLog id b
    → c < length (log id b.db)
    → length (log id b.db) < 2 ^ 31
    → Orders (log id b.db)
    → get_peer_by_id w.keys b.peers id ≡ ok p
    → (serve_batch w (as_i32 c) id b).0
      ≡ ok (
          batch_message_response
            (map into_message (drop (c - 1) (log id b.db)))
            (peer_message w (offered c p))
          ∷ [])
answer_more w id c b p zeroes up h more few orders peer =
    let n = (get_or_create_repository w.null id b).1 in
    let (is_log, same) = get_or_create_repository-IsLog w.null zeroes id b up h (omega arith) in
    let counter : leb (cur_counter id n) c ≡ false =
      ground (arith, is_log.counted, ap (λ (d : MessageDatabase). length (log id d)) same) in
    let low = Numbered-All-lt (2 ^ 31) 1 (log id b.db) h.numbered (omega (arith, few)) in
    let rows =
      read_rows_ok (drop (c - 1) (log id b.db))
        (All-drop (λ m. m.counter < 2 ^ 31) (c - 1) (log id b.db) low)
        (All-drop (λ m. m.order < 2 ^ 63) (c - 1) (log id b.db) orders) in
    let found : get_messages id c n ≡ ok (drop (c - 1) (log id b.db)) =
      unfold get_messages in
      rw same (get_after-log b.db id c up h.numbered (omega arith) (omega arith) ∙ rows) in
    let answered = answer_run w id c n p (rw get_or_create-peers peer) found in
    ap (λ (r : Result (List Variant) × Node). r.0) (serve_run w (as_i32 c) id b)
    ∙ rw (i32_round_trip c (omega arith), counter) answered

pub answer_none :
    (w : World) (id : String) (c : ℕ) (b : Node)
    → w.null ≡ 0
    → b.db.online ≡ true
    → HasLog id b
    → length (log id b.db) ≤ c
    → c < 2 ^ 31
    → (serve_batch w (as_i32 c) id b).0 ≡ ok (batch_message_response [] none ∷ [])
answer_none w id c b zeroes up h less few =
    let n = (get_or_create_repository w.null id b).1 in
    let (is_log, same) = get_or_create_repository-IsLog w.null zeroes id b up h (omega arith) in
    let counter : leb (cur_counter id n) c ≡ true =
      ground (arith, is_log.counted, ap (λ (d : MessageDatabase). length (log id d)) same) in
    ap (λ (r : Result (List Variant) × Node). r.0) (serve_run w (as_i32 c) id b)
    ∙ rw (i32_round_trip c (omega arith), counter) refl

-- What the receiver does with the answer, if it accepts the peer.
pub finish_run :
    (w : World) (id : String) (ms : List Message) (p : Option PeerMessage) (a : Node)
    → (accept_peer w p a).0 ≡ ok tt
    → (finish_batch w id (some (batch_message_response ms p)) a).1
      ≡ (insert_message_batch w.decode id
          (map from_message ms)
          (get_or_create_repository w.null id (accept_peer w p a).1).1).1
unfolding finish_batch get_or_create_repository
finish_run w id ms p a accepted = ground arith

pub finish_none :
    (w : World) (id : String) (a : Node)
    → (finish_batch w id (some (batch_message_response [] none)) a).1
      ≡ (get_or_create_repository w.null id a).1
unfolding finish_batch accept_peer insert_message_batch get_or_create_repository
finish_none w id a = ground arith
