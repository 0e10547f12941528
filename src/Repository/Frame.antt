-- ===== src/Repository/Frame.antt =====
-- Publishing a message touches neither the table of messages nor a counter, nor the handle to the
-- manager.
use paper_plane.Prelude.{ℕ, ◌≡◌, Option, List, ◌∷◌, [], arith}
use paper_plane.Models.{DbMessage, MessagePayload}
use paper_plane.Node.{Node}
use paper_plane.Repository.{broadcast, broadcast_unchecked, publish, publish_many}

-- Same rows, same counters, same handle.
pub record SameStore (a b : Node) : Type 0 where
  pub db : b.db ≡ a.db
  pub repositories : b.repositories ≡ a.repositories
  pub counter_lock : b.counter_lock ≡ a.counter_lock
  pub manager_alive : b.manager_alive ≡ a.manager_alive

broadcast-SameStore : (ms : List DbMessage) (n : Node) → SameStore n (broadcast ms n).1
unfolding broadcast
broadcast-SameStore [] n = ground arith
broadcast-SameStore (m ∷ ms) n = ground arith

broadcast_unchecked-SameStore :
    (ms : List DbMessage) (n : Node) → SameStore n (broadcast_unchecked ms n).1
unfolding broadcast_unchecked
broadcast_unchecked-SameStore [] n = ground arith
broadcast_unchecked-SameStore (m ∷ ms) n = ground arith

module _ (decode : List ℕ → Option MessagePayload) where
  pub publish-SameStore : (m : DbMessage) (n : Node) → SameStore n (publish decode m n).1
  unfolding publish
  publish-SameStore m n = ground arith

  pub publish_many-SameStore :
      (ms : List DbMessage) (n : Node) → SameStore n (publish_many decode ms n).1
  unfolding publish_many
  publish_many-SameStore [] n = ground arith
  publish_many-SameStore (m ∷ ms) n = ground arith
