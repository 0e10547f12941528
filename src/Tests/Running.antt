-- ===== src/Tests/Running.antt =====
-- Tests of the theorems on the workers of the queue and on the start of a node.
use paper_plane.Prelude.{
  arith, ◌+◌, ◌≡◌, refl, String, Bool, true, false, none, some, List, [], ◌∷◌, ◌++◌, length,
}
use paper_plane.Prelude.Exec.{ok}
use paper_plane.Requests.{Task, file_task}
use paper_plane.Requests.Workers.{
  idle, Event, enqueued, taken, ends, Ending, timed_out, failed, work,
}
use paper_plane.Requests.Workers.Laws.{all_enqueued, count, tasks, rest_of, work_lem}
use paper_plane.AppContext.{
  DbPool, Start, AppContext, prepare_deps, new_context, init_messages, max_order,
}
use paper_plane.Peer.{Peer}
use paper_plane.Peers.{row_of, local_peer, get_local_peer, save_row}
use paper_plane.Events.{send_peer}
use paper_plane.AppContext.Run.{CanGenerate}
use paper_plane.AppContext.Restart.{SameNode, later, prepare_deps_again}
use paper_plane.Tests.{key, keys, two_rows}

abbrev fetch : String → Task
fetch f = file_task f ("ben" ∷ [])

-- One worker: the second task waits until the first has timed out.
abbrev busy : List Event
busy = enqueued (fetch "f1") ∷ enqueued (fetch "f2") ∷ taken ∷ taken ∷ ends 0 timed_out ∷ taken ∷ []

abbrev is_first : Task → Bool
is_first t = elim t [ file_task f p ↦ true | _ ↦ false ]

abbrev all_fail : List Task → Ending
all_fail ts = failed

work_lem_example :
    let w = work busy (idle 1) in
    let last = work (rest_of w all_fail) w in
    (w.started ++ w.queue ≡ all_enqueued busy)
    × (w.waiting + length w.running ≡ 1)
    × (count is_first w.started ≡ count is_first w.running + count is_first (tasks w.ended))
    × (last.running ≡ [])
    × (last.queue ≡ [])
    × (last.waiting ≡ 1)
    × (count is_first (tasks last.ended) ≡ count is_first (all_enqueued busy))
work_lem_example = work_lem 1 busy all_fail is_first (omega arith)

abbrev pub start : Start
start = record {
  keys = keys;
  now = 1500000000;
  generated = key;
  verifying_key = λ k. k;
  read_u64 = λ max. max;
}

-- The tables of a node before its first start, and some messages.
abbrev pub file : DbPool
file = record { messages = some two_rows; peers = none; files = none; index = none; online = true }

start-CanGenerate : CanGenerate start
start-CanGenerate = record { public_key = refl; signing_key = refl; is_time = refl }

-- What the first start gives.
abbrev created : Peer
created = local_peer keys 1500000000 (some "Anna") key key

abbrev pub context : AppContext
context =
    new_context start (created, row_of created ∷ [], send_peer created []) (two_rows, some 5) [] []
      key true

pub first_start : (prepare_deps start "Anna" file).0 ≡ ok context
unfolding prepare_deps init_messages get_local_peer save_row local_peer max_order
first_start = refl

prepare_deps_again_example :
    (ctx' : AppContext) × ((prepare_deps
        (later start 9 (1 ∷ []))
        "Bob"
        (prepare_deps start "Anna" file).1).0
      ≡ ok ctx')
    × SameNode ctx' context
prepare_deps_again_example =
    prepare_deps_again start "Anna" "Bob" 9 (1 ∷ []) file context start-CanGenerate first_start
