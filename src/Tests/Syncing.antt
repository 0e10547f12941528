-- ===== src/Tests/Syncing.antt =====
-- Tests of the theorems on the engine's exchanges.
use paper_plane.Prelude.{◌++◌, ◌≡◌, refl, none, some, List, [], ◌∷◌, arith, any}
use paper_plane.Node.{Node}
use paper_plane.Requests.{RepoState}
use paper_plane.Sync.{messages, Variant}
use paper_plane.Messages.{distinct_peers}
use paper_plane.Sync.Periodic.{periodic_task, rounds, states_of, periodic_task_lem}
use paper_plane.Sync.Compare.{
  is_ahead, comparison_lem, behind, compare_payload, asks_for, batch_requests,
}
use paper_plane.Models.{into_message}
use paper_plane.Sync.Tasks.{finish_batch}
use paper_plane.Sync.Reachable.{Timed, Steps-Timed, rest, followed, request, batch_done}
use paper_plane.Sync.Serve.{handle_request}
use paper_plane.Tests.{sample, two_messages, world}

abbrev mine : List RepoState
mine = record { counter = 3; peer_id = "anna" } ∷ record { counter = 4; peer_id = "ben" } ∷ []

abbrev theirs : List RepoState
theirs = record { counter = 3; peer_id = "anna" } ∷ record { counter = 1; peer_id = "ben" } ∷ []

abbrev incoming : Variant
incoming = messages (into_message (sample 3 "m3" 9) ∷ []) "anna" none

abbrev answered : Node
answered = (handle_request world (some incoming) two_messages).1

Steps-Timed_example : Timed (finish_batch world "anna" none answered).1
Steps-Timed_example =
    Steps-Timed world two_messages (finish_batch world "anna" none answered).1
      (followed two_messages answered (finish_batch world "anna" none answered).1
        (followed two_messages two_messages answered (rest two_messages)
          (request (some incoming) two_messages))
        (batch_done "anna" none answered))
      (refl, (omega arith, (omega arith, tt)))

comparison_lem_example :
    any (asks_for "ben") (batch_requests "carl" theirs (behind mine (compare_payload theirs)))
    ≡ any (is_ahead theirs "ben") mine
comparison_lem_example =
    comparison_lem "carl" "ben" theirs mine (omega arith, (omega arith, tt))
      (omega arith, (omega arith, tt))

periodic_task_lem_example :
    let n' = (periodic_task 0 ("ben" ∷ "carl" ∷ []) two_messages).1 in
    n'.queue
    ≡ two_messages.queue
      ++ rounds ("ben" ∷ "carl" ∷ []) (states_of n' (distinct_peers two_messages.db.rows)) []
periodic_task_lem_example = periodic_task_lem 0 ("ben" ∷ "carl" ∷ []) two_messages refl
