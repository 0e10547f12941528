-- ===== src/Repository.antt =====
-- ChatLib/chat-arch/src/repository.rs, and the counters and the broadcast that it calls
-- (repository_manager.rs, sync_engine.rs). A repository is its id; its counter stands in `Node`.
pub mod Frame
pub mod Alive
pub mod Queued
pub mod Log
pub mod Batch
pub mod Save
use paper_plane.Prelude.{
  ℕ, zero, suc, ◌+◌, String, Bool, true, false, not, Option, List, [], ◌∷◌, ◌++◌, map, str_eq, ◌==◌,
  ltb, retain, length, is_empty, if◌then◌else◌,
}
use paper_plane.Prelude.Word.{add64}
use paper_plane.Prelude.Exec.{
  Result, ok, err, Exec, pure, fail, lift, gets, modify, check, ◌>>=◌, ◌>>◌, wrong_peer,
  bad_counter, engine_gone, index_out_of_bounds,
}
use paper_plane.Models.{DbMessage, MessagePayload}
use paper_plane.Messages.{MessageDatabase, save, save_many, get_after}
use paper_plane.Index.{Indexer, index_message, index_messages}
use paper_plane.Requests.{Task, RequestQueue, message_task, enqueue}
use paper_plane.Node.{Node, cur_counter, set_counter}

-- `message_broadcast` of sync_engine.rs
pub enqueue_all : List DbMessage → List String → RequestQueue → RequestQueue
enqueue_all messages [] q = q
enqueue_all messages (p ∷ ps) q = enqueue_all messages ps (enqueue (message_task p messages) q)

-- Indexing an empty vector panics.
unfoldable pub message_broadcast : List DbMessage → Exec Node (Unit {0})
unfolding enqueue_all
message_broadcast [] n = (err index_out_of_bounds, n)
message_broadcast (m ∷ ms) n =
    if str_eq n.id m.peer_id
    then (ok tt, record n { queue = enqueue_all (m ∷ ms) n.current_peers n.queue })
    else (ok tt, n)

-- `update_counter` and `update_counter_many` of repository_manager.rs
abbrev pub raise_to : ℕ → ℕ → ℕ
raise_to cnt order = if ltb cnt order then order else cnt

unfoldable pub raise_to_all : ℕ → List DbMessage → ℕ
raise_to_all cnt [] = cnt
raise_to_all cnt (m ∷ ms) = raise_to_all (raise_to cnt m.order) ms

-- Both are called if the weak handle to the manager can be upgraded.
unfoldable pub update_counter : DbMessage → Exec Node (Unit {0})
update_counter m n = (
  ok tt,
  (if n.manager_alive then record n { counter_lock = raise_to n.counter_lock m.order } else n),
)

unfoldable pub update_counter_many : List DbMessage → Exec Node (Unit {0})
unfolding raise_to_all
update_counter_many ms n = (
  ok tt,
  (if n.manager_alive then record n { counter_lock = raise_to_all n.counter_lock ms } else n),
)

-- A call on the database, or on the indexer, that is part of the node.
abbrev pub stored : Node → Result MessageDatabase → Result (Unit {0}) × Node
stored n (ok db) = (ok tt, record n { db = db })
stored n (err e) = (err e, n)

pub on_indexer : Exec Indexer (Unit {0}) → Exec Node (Unit {0})
on_indexer f n = let (r, s) = f n.indexer in (r, record n { indexer = s })

pub assign_counter : String → DbMessage → Exec Node DbMessage
assign_counter id m n =
    let next = add64 (cur_counter id n) 1 in
    if m.counter == 0
    then (ok (record m { counter = next }), set_counter id next n)
    else if m.counter == next
    then (ok m, n)
    else (err bad_counter, n)

pub advance : String → ℕ → Exec Node (Unit {0})
advance id total n = (ok tt, set_counter id (add64 (cur_counter id n) total) n)

-- The broadcast over the engine's weak handle.
pub broadcast : List DbMessage → Exec Node (Unit {0})
unfolding message_broadcast
broadcast ms n = if n.engine_alive then message_broadcast ms n else (err engine_gone, n)

-- The same, with the result of the broadcast itself dropped.
pub broadcast_unchecked : List DbMessage → Exec Node (Unit {0})
unfolding message_broadcast
broadcast_unchecked ms n =
    if n.engine_alive then (ok tt, (message_broadcast ms n).1) else (err engine_gone, n)

-- The loop of `insert_message_batch` over the messages that are new.
pub check_batch : String → ℕ → ℕ → List DbMessage → Result (Unit {0})
check_batch id counter i [] = ok tt
check_batch id counter i (m ∷ ms) =
    let rest = check_batch id counter (i + 1) ms in
    if not (str_eq m.peer_id id)
    then err wrong_peer
    else if not (m.counter == add64 (add64 counter i) 1)
    then err bad_counter
    else rest

abbrev pub newer : ℕ → List DbMessage → List DbMessage
newer counter ms = retain (λ m. ltb counter m.counter) ms

unfoldable pub get_messages : String → ℕ → Node → Result (List DbMessage)
get_messages id start n = get_after n.db id start

module _ (decode : List ℕ → Option MessagePayload) where
  -- What follows when a message has been counted.
  pub publish : DbMessage → Exec Node (Unit {0})
  unfolding on_indexer broadcast
  publish m = do on_indexer (index_message decode m); broadcast (m ∷ [])

  unfoldable pub save_message : String → DbMessage → Exec Node (Unit {0})
  unfolding assign_counter advance update_counter publish
  save_message id message = do
    check (str_eq message.peer_id id) wrong_peer
    counted ← assign_counter id message
    λ n. stored n (save n.db counted)
    if message.counter == 0 then pure tt else advance id 1
    update_counter counted
    publish counted

  pub publish_many : List DbMessage → Exec Node (Unit {0})
  unfolding on_indexer broadcast_unchecked
  publish_many ms = do on_indexer (index_messages decode ms); broadcast_unchecked ms

  pub store_batch : String → List DbMessage → Exec Node (Unit {0})
  unfolding advance publish_many
  store_batch id [] = pure tt
  store_batch id (m ∷ ms) = do
    λ n. stored n (save_many n.db (m ∷ ms))
    update_counter_many (m ∷ ms)
    advance id (length (m ∷ ms))
    publish_many (m ∷ ms)

  unfoldable pub insert_message_batch : String → List DbMessage → Exec Node (Unit {0})
  unfolding check_batch store_batch
  insert_message_batch id [] = pure tt
  insert_message_batch id (m ∷ ms) = do
    counter ← gets (cur_counter id)
    lift (check_batch id counter 0 (newer counter (m ∷ ms)))
    store_batch id (newer counter (m ∷ ms))
