-- ===== src/Node.antt =====
-- The state that the objects of one process share: the databases, the repositories and the order
-- counter of the manager (repository_manager.rs), and the queue of the engine (sync_engine.rs).
-- A `Weak` handle is a flag that says whether it can be upgraded.
use paper_plane.Prelude.{
  ℕ, String, Bool, Option, none, some, List, ◌≡◌, str_eq, arith, if◌then◌else◌,
}
use paper_plane.Prelude.Dict.{Dict, lookup, insert, lookup-insert}
use paper_plane.Messages.{MessageDatabase}
use paper_plane.Index.{Indexer}
use paper_plane.Peers.{PeerDatabase}
use paper_plane.Resolver.{FileResolverStorage}
use paper_plane.Requests.{RequestQueue}

pub record Node : Type 0 where
  pub id : String
  pub db : MessageDatabase
  pub repositories : Dict ℕ
  pub counter_lock : ℕ
  pub indexer : Indexer
  pub peers : PeerDatabase
  pub storage : FileResolverStorage
  pub current_peers : List String
  pub queue : RequestQueue
  pub engine_alive : Bool
  pub manager_alive : Bool

abbrev or_zero : Option ℕ → ℕ
or_zero none = 0
or_zero (some c) = c

-- `cur_counter` of a repository, which the manager's map holds under the repository's id.
unfoldable pub cur_counter : String → Node → ℕ
cur_counter id n = or_zero (lookup id n.repositories)

unfoldable pub set_counter : String → ℕ → Node → Node
set_counter id c n = record n { repositories = insert id c n.repositories }

pub cur_counter-set_counter :
    (id other : String) (c : ℕ) (n : Node)
    → cur_counter other (set_counter id c n) ≡ (if str_eq id other then c else cur_counter other n)
unfolding cur_counter set_counter
cur_counter-set_counter id other c n = rw lookup-insert (ground arith)

pub cur_counter_congr :
    (id : String) (a b : Node)
    → a.repositories ≡ b.repositories
    → cur_counter id a ≡ cur_counter id b
unfolding cur_counter
cur_counter_congr id a b e = rw e
