-- ===== src/Requests.antt =====
-- `RequestQueue` of ChatLib/chat-arch/src/request_queue.rs, and the data of the tasks of
-- sync_engine.rs that are put on it. A task's handles to shared objects are not among its data.
pub mod Workers
use paper_plane.Prelude.{ℕ, String, List, [], ◌∷◌, ◌++◌}
use paper_plane.Models.{DbMessage}

-- `RepoState` of repository_manager.rs.
pub record RepoState : Type 0 where
  pub counter : ℕ
  pub peer_id : String

pub data Task : Type 0 where
  message_task : (peer_id : String) (messages : List DbMessage) → Task
  batch_request_task : (counter : ℕ) (peer_id repo_id : String) → Task
  compare_state_task : (peer_id : String) (repo_states : List RepoState) → Task
  file_want_task : (peer_id : String) (file_ids : List String) → Task
  file_task : (file_id : String) (peer_ids : List String) → Task

-- The unbounded channel of the queue, the oldest task first.
abbrev pub RequestQueue : Type 0
RequestQueue = List Task

abbrev pub enqueue : Task → RequestQueue → RequestQueue
enqueue t q = q ++ t ∷ []
