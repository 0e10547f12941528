-- ===== src/Repository/Alive.antt =====
-- The handle to the manager stays alive under the methods of repository.rs.
use paper_plane.Prelude.{ℕ, ◌≡◌, refl, inl, inr, String, Option, List, [], ◌∷◌, arith}
use paper_plane.Prelude.Exec.{Result-cases}
use paper_plane.Models.{DbMessage, MessagePayload}
use paper_plane.Messages.{save_many}
use paper_plane.Node.{Node, cur_counter, set_counter}
use paper_plane.Repository.{
  on_indexer, broadcast_unchecked, message_broadcast, publish_many, store_batch, advance,
  update_counter_many, insert_message_batch, newer,
}

module _ (decode : List ℕ → Option MessagePayload) where
  publish_many-alive :
      (ms : List DbMessage) (n : Node)
      → (publish_many decode ms n).1.manager_alive ≡ n.manager_alive
  unfolding publish_many on_indexer broadcast_unchecked message_broadcast
  publish_many-alive [] n = ground arith
  publish_many-alive (m ∷ ms) n = ground arith

  store_batch-alive :
      (id : String) (ms : List DbMessage) (n : Node)
      → (store_batch decode id ms n).1.manager_alive ≡ n.manager_alive
  unfolding store_batch update_counter_many advance set_counter
  store_batch-alive id [] n = refl
  store_batch-alive id (m ∷ ms) n = elim (Result-cases (save_many n.db (m ∷ ms))) [
    | inr (e, failed) ↦ ground arith
    | inl (db, saved) ↦ ground (arith, publish_many-alive (m ∷ ms))
  ]

  pub insert_message_batch-alive :
      (id : String) (ms : List DbMessage) (n : Node)
      → (insert_message_batch decode id ms n).1.manager_alive ≡ n.manager_alive
  unfolding insert_message_batch
  insert_message_batch-alive id [] n = refl
  insert_message_batch-alive id (m ∷ ms) n =
      ground (arith, store_batch-alive id (newer (cur_counter id n) (m ∷ ms)) n)
