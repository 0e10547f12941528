-- ===== src/Manager.antt =====
-- ChatLib/chat-arch/src/repository_manager.rs, on the state of `Node`. `null` is what the driver
-- reads from the MAX of no rows.
pub mod Recover
pub mod Clock
pub mod Running
use paper_plane.Prelude.{ℕ, ◌+◌, String, Option, none, some, List, [], ◌∷◌}
use paper_plane.Prelude.Word.{add64}
use paper_plane.Prelude.Dict.{lookup}
use paper_plane.Prelude.Exec.{Result, ok, err, Exec, pure, lift, gets, ◌>>=◌, ◌>>◌}
use paper_plane.Models.{DbMessage, MessagePayload}
use paper_plane.Messages.{get_highest_counter, get_peers}
use paper_plane.Node.{Node, cur_counter, set_counter}
use paper_plane.Repository.{save_message}
use paper_plane.Requests.{RepoState}

-- `unwrap_or_else(|_| 0)` of `Repository::new`.
abbrev or_zero : Result ℕ → ℕ
or_zero (ok c) = c
or_zero (err e) = 0

module _ (null : ℕ) where
  unfoldable pub get_or_create_repository : String → Exec Node (Unit {0})
  get_or_create_repository peer_id n = elim (lookup peer_id n.repositories) [
    | some c ↦ (ok tt, n)
    | none ↦ (ok tt, set_counter peer_id (or_zero (get_highest_counter null n.db peer_id)) n)
  ]

  -- The counter under the lock, raised by one.
  pub next_order : Exec Node ℕ
  next_order n = (ok (add64 n.counter_lock 1), record n { counter_lock = add64 n.counter_lock 1 })

  unfoldable pub repo_states : List String → Exec Node (List RepoState)
  unfolding get_or_create_repository
  repo_states [] = pure []
  repo_states (p ∷ ps) = do
    get_or_create_repository p
    counter ← gets (cur_counter p)
    states ← repo_states ps
    pure (record { counter = counter; peer_id = p } ∷ states)

  unfoldable pub get_repo_states : Exec Node (List RepoState)
  unfolding repo_states
  get_repo_states = do db ← gets (λ n. n.db); peer_ids ← lift (get_peers db); repo_states peer_ids

  unfoldable pub add_own_message :
      (List ℕ → Option MessagePayload) → DbMessage → Exec Node DbMessage
  unfolding next_order get_or_create_repository
  add_own_message decode message = do
    order ← next_order
    get_or_create_repository message.peer_id
    save_message decode message.peer_id (record message { order = order })
    pure (record message { order = order })
