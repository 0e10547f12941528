-- ===== src/Repository/Queued.antt =====
-- What the methods of repository.rs put on the queue: tasks with what was stored, or nothing.
use paper_plane.Prelude.{
  ℕ, ◌≡◌, refl, ◌⊎◌, inl, inr, String, Option, List, [], ◌∷◌, arith, All, All-append,
}
use paper_plane.Prelude.Exec.{Result-cases}
use paper_plane.Models.{DbMessage, MessagePayload}
use paper_plane.Messages.{save_many}
use paper_plane.Node.{Node, cur_counter, set_counter}
use paper_plane.Requests.{Task, RequestQueue, message_task, enqueue}
use paper_plane.Repository.{
  enqueue_all, on_indexer, broadcast_unchecked, message_broadcast, publish, publish_many,
  store_batch, advance, update_counter_many, insert_message_batch, newer,
}

-- The queue is as it was, or has a task with these messages for each current peer.
abbrev pub Queued : List DbMessage → Node → Node → Type 0
Queued ms n after = (after.queue ≡ n.queue) ⊎ (after.queue ≡ enqueue_all ms n.current_peers n.queue)

pub enqueue_all-All :
    (P : Task → Type 0) (ms : List DbMessage) (peers : List String) (q : RequestQueue)
    → ((p : String) → P (message_task p ms))
    → All P q
    → All P (enqueue_all ms peers q)
unfolding enqueue_all
enqueue_all-All P ms [] q h all = all
enqueue_all-All P ms (p ∷ ps) q h all =
    enqueue_all-All P ms ps (enqueue (message_task p ms) q) h
      (All-append P q (message_task p ms ∷ []) all (h p, tt))

pub Queued-All :
    (P : Task → Type 0) (ms : List DbMessage) (n after : Node)
    → Queued ms n after
    → ((p : String) → P (message_task p ms))
    → All P n.queue
    → All P after.queue
Queued-All P ms n after (inl same) h all = rw same all
Queued-All P ms n after (inr more) h all =
    rw more (enqueue_all-All P ms n.current_peers n.queue h all)

module _ (decode : List ℕ → Option MessagePayload) where
  pub publish-Queued : (m : DbMessage) (n : Node) → Queued (m ∷ []) n (publish decode m n).1
  unfolding publish on_indexer
  publish-Queued m n = ground arith

  publish_many-Queued : (ms : List DbMessage) (n : Node) → Queued ms n (publish_many decode ms n).1
  unfolding publish_many on_indexer broadcast_unchecked message_broadcast
  publish_many-Queued [] n = ground arith
  publish_many-Queued (m ∷ ms) n = ground arith

  store_batch-Queued :
      (id : String) (ms : List DbMessage) (n : Node) → Queued ms n (store_batch decode id ms n).1
  unfolding store_batch update_counter_many advance set_counter
  store_batch-Queued id [] n = inl refl
  store_batch-Queued id (m ∷ ms) n = elim (Result-cases (save_many n.db (m ∷ ms))) [
    | inr (e, failed) ↦ inl (ground arith)
    | inl (db, saved) ↦ ground (arith, publish_many-Queued (m ∷ ms))
  ]

  pub insert_message_batch-Queued :
      (id : String) (ms : List DbMessage) (n : Node)
      → Queued (newer (cur_counter id n) ms) n (insert_message_batch decode id ms n).1
  unfolding insert_message_batch
  insert_message_batch-Queued id [] n = inl refl
  insert_message_batch-Queued id (m ∷ ms) n =
      ground (arith, store_batch-Queued id (newer (cur_counter id n) (m ∷ ms)) n)
