-- ===== src/Requests/Workers.antt =====
-- The workers of `RequestQueue` (ChatLib/chat-arch/src/request_queue.rs): each is a loop that takes
-- the oldest task of the channel, runs it for at most 30 seconds, and takes the next one however it
-- has ended. The channel is not closed while the queue lives.
pub mod Laws
use paper_plane.Prelude.{
  ℕ, zero, suc, Bool, Option, none, some, List, [], ◌∷◌, ◌++◌, length, ltb, if◌then◌else◌,
}
use paper_plane.Requests.{Task, RequestQueue, enqueue}

-- How a task has ended for its worker.
pub data Ending : Type 0 where
  succeeded failed timed_out : Ending

-- `waiting` is how many workers wait to receive. `running` are the tasks that a worker is busy with, `started` all that were ever taken, and
-- `ended` those that have ended, each the oldest first.
pub record Workers : Type 0 where
  pub queue : RequestQueue
  pub waiting : ℕ
  pub running : List Task
  pub started : List Task
  pub ended : List (Task × Ending)

-- `RequestQueue::new` and `start`: all workers wait.
abbrev pub idle : ℕ → Workers
idle worker_count = record {
  queue = [];
  waiting = worker_count;
  running = [];
  started = [];
  ended = [];
}

-- What happens: a task is enqueued, a worker that waits takes the oldest one, or a task ends, named
-- by its place among those that run.
pub data Event : Type 0 where
  enqueued : Task → Event
  taken : Event
  ends : ℕ → Ending → Event

abbrev pub get_elem? : List Task → ℕ → Option Task
get_elem? [] i = none
get_elem? (t ∷ ts) zero = some t
get_elem? (t ∷ ts) (suc i) = get_elem? ts i

abbrev pub erase : List Task → ℕ → List Task
erase [] i = []
erase (t ∷ ts) zero = ts
erase (t ∷ ts) (suc i) = t ∷ erase ts i

-- A worker that waits receives.
unfoldable pub receive : ℕ → RequestQueue → Workers → Workers
receive zero queue w = w
receive (suc waiting) [] w = w
receive (suc waiting) (t ∷ queue) w = record w {
  queue = queue;
  waiting = waiting;
  running = w.running ++ t ∷ [];
  started = w.started ++ t ∷ [];
}

-- The worker of a task that has ended waits again.
unfoldable pub finish : ℕ → Ending → Option Task → Workers → Workers
finish i ending none w = w
finish i ending (some t) w = record w {
  waiting = suc w.waiting;
  running = erase w.running i;
  ended = w.ended ++ (t, ending) ∷ [];
}

unfoldable pub worker_loop : Event → Workers → Workers
unfolding receive finish
worker_loop (enqueued t) w = record w { queue = enqueue t w.queue }
worker_loop taken w = receive w.waiting w.queue w
worker_loop (ends i ending) w = finish i ending (get_elem? w.running i) w

unfoldable pub work : List Event → Workers → Workers
unfolding worker_loop
work [] w = w
work (e ∷ es) w = work es (worker_loop e w)
