-- ===== src/Network/Fits.antt =====
-- What a node holds of the logs of the authors, and what it is about to send.
use paper_plane.Prelude.{◌^◌, ◌<◌, ◌≡◌, String, true, List, [], ◌∷◌, All, length}
use paper_plane.Models.{DbMessage}
use paper_plane.Messages.Log.{log, Numbered}
use paper_plane.Messages.Prefix.{Prefix, In, Prefix-trans, In-Prefix}
use paper_plane.Node.{Node}
use paper_plane.Requests.{
  Task, message_task, batch_request_task, compare_state_task, file_want_task, file_task,
}
use paper_plane.Manager.Recover.{HasLog}

-- The log of each author.
abbrev pub Logs : Type 0
Logs = String → List DbMessage

-- Each message stands in the log of its author, and they are less than 2 ^ 31.
abbrev pub Sound : Logs → List DbMessage → Type 0
Sound t ms = All (λ m. In m (t m.peer_id)) ms × (length ms < 2 ^ 31)

abbrev pub SoundTask : Logs → Task → Type 0
SoundTask t (message_task p ms) = Sound t ms
SoundTask t (batch_request_task c p id) = Unit {0}
SoundTask t (compare_state_task p states) = Unit {0}
SoundTask t (file_want_task p fs) = Unit {0}
SoundTask t (file_task f ps) = Unit {0}

-- The database answers; the rows of each author are a numbered beginning of the author's log, with
-- which the repository agrees, if it is open; and what waits to be sent stands in the logs.
pub record Fits (t : Logs) (n : Node) : Type 0 where
  pub online : n.db.online ≡ true
  pub logs : (id : String) → HasLog id n
  pub beginning : (id : String) → Prefix (log id n.db) (t id)
  pub sound : All (SoundTask t) n.queue

abbrev pub Grow : Logs → Logs → Type 0
Grow t t' = (id : String) → Prefix (t id) (t' id)

pub All-In-Grow :
    (t t' : Logs) (ms : List DbMessage)
    → Grow t t'
    → All (λ m. In m (t m.peer_id)) ms
    → All (λ m. In m (t' m.peer_id)) ms
All-In-Grow t t' [] grow h = tt
All-In-Grow t t' (m ∷ ms) grow h =
    (In-Prefix m (t m.peer_id) (t' m.peer_id) (grow m.peer_id) h.0, All-In-Grow t t' ms grow h.1)

pub SoundTask-Grow : (t t' : Logs) (k : Task) → Grow t t' → SoundTask t k → SoundTask t' k
SoundTask-Grow t t' (message_task p ms) grow h = (All-In-Grow t t' ms grow h.0, h.1)
SoundTask-Grow t t' (batch_request_task c p id) grow h = tt
SoundTask-Grow t t' (compare_state_task p states) grow h = tt
SoundTask-Grow t t' (file_want_task p fs) grow h = tt
SoundTask-Grow t t' (file_task f ps) grow h = tt

pub queue-Grow :
    (t t' : Logs) (q : List Task) → Grow t t' → All (SoundTask t) q → All (SoundTask t') q
queue-Grow t t' [] grow h = tt
queue-Grow t t' (k ∷ q) grow h = (SoundTask-Grow t t' k grow h.0, queue-Grow t t' q grow h.1)

-- A node that fits the logs fits them when they have grown.
pub Fits-Grow : (t t' : Logs) (n : Node) → Grow t t' → Fits t n → Fits t' n
Fits-Grow t t' n grow h = record {
  online = h.online;
  logs = h.logs;
  beginning = λ id. Prefix-trans (log id n.db) (t id) (t' id) (h.beginning id) (grow id);
  sound = queue-Grow t t' n.queue grow h.sound;
}

-- The tables only grow.
abbrev pub Extends : Node → Node → Type 0
Extends n n' = (id : String) → Prefix (log id n.db) (log id n'.db)

-- The logs are numbered, and short enough for the wire.
abbrev pub Wireable : Logs → Type 0
Wireable t = (id : String) → Numbered 1 (t id) × (length (t id) < 2 ^ 31)
