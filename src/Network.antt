-- ===== src/Network.antt =====
-- Several nodes that run the engine of sync_engine.rs and talk to each other: each is found under
-- its own id, so that the log of an author is the one of the node of this id. An exchange runs the
-- code of both sides; a request or an answer that is lost is an exchange that does not happen, or
-- one that ends after its first half.
pub mod Spec
pub mod Fits
pub mod Deliver
pub mod Exchange
pub mod Replies
pub mod Restart
pub mod Quiet
pub mod Own
pub mod Consistent
pub mod Kept
pub mod Reachable
pub mod CatchUp
pub mod Broadcast
pub mod Files
use paper_plane.Prelude.{
  ℕ, ◌+◌, ◌^◌, ◌<◌, ◌≡◌, ◌⊎◌, String, false, Option, none, some, List, [], ◌∷◌, any, length, str_eq,
  if◌then◌else◌,
}
use paper_plane.Prelude.Word.{as_i32}
use paper_plane.Prelude.Exec.{Result, ok, err}
use paper_plane.Prelude.Dict.{Dict}
use paper_plane.Models.{DbMessage}
use paper_plane.Messages.{has_id}
use paper_plane.Messages.Log.{log}
use paper_plane.Node.{Node}
use paper_plane.Requests.{Task, message_task, RepoState}
use paper_plane.AppContext.{Start, AppContext, file_of, prepare_deps}
use paper_plane.Manager.{add_own_message}
use paper_plane.Resolver.{ResolveResult, get_need_resolve}
use paper_plane.Resolver.Step.{FileResolver}
use paper_plane.Resolver.Reachable.{ResolverStep}
use paper_plane.Sync.{Variant}
use paper_plane.Sync.Serve.{World, handle_request}
use paper_plane.Sync.Tasks.{
  file_want, finish_file_want, first, batch_request, finish_batch, message_request,
  compare_state_request, finish_compare,
}

abbrev pub Network : Type 0
Network = String → Node

abbrev pub update : String → Node → Network → Network
update i n net j = if str_eq i j then n else net j

-- The log that the author itself has.
abbrev pub truth : Network → String → List DbMessage
truth net id = log id (net id).db

-- The first message that the asking side reads: none, if the handler has ended with an error.
abbrev pub reply : Result (List Variant) → Option Variant
reply (ok answer) = first answer
reply (err e) = none

-- `BatchRequestTask` of node `i` for the messages of `id` from `counter` on, answered by node `j`.
unfoldable pub batch_exchange : World → World → String → String → String → ℕ → Network → Network
batch_exchange wi wj i j id counter net =
    let (answer, nj) = handle_request wj (some (batch_request counter id)) (net j) in
    let asked = update j nj net in update i (finish_batch wi id (reply answer) (asked i)).1 asked

-- `MessageTask` of node `i` with these messages, received by node `j`; the answer to it changes
-- nothing.
unfoldable pub message_exchange :
    World → World → String → String → List DbMessage → Network → Network
message_exchange wi wj i j ms net = elim (message_request wi ms (net i)).0 [
  | err e ↦ net
  | ok v ↦ update j (handle_request wj (some v) (net j)).1 net
]

-- The node of the author adds a message.
unfoldable pub own_message : World → DbMessage → Network → Network
own_message w m net = update m.peer_id (add_own_message w.null w.decode m (net m.peer_id)).1 net

-- `CompareStateTask` of node `i` with these states, answered by node `j`.
unfoldable pub compare_exchange : World → String → String → List RepoState → Network → Network
compare_exchange wj i j states net =
    let (answer, nj) = handle_request wj (some (compare_state_request states)) (net j) in
    let asked = update j nj net in
    update i (finish_compare j states (reply answer) (asked i)).1 asked

-- `FileWantTask` of node `i` for the files that it needs, answered by node `j`.
unfoldable pub file_want_exchange : World → String → String → Network → Node
file_want_exchange wj i j net =
    let asked = file_want (get_need_resolve (net i).storage) in
    (finish_file_want j (reply (handle_request wj (some asked) (net j)).0) (net i)).1

-- The resolver on the state of a node, with its channel of results, its timers and its folder.
abbrev pub resolver_of : Node → List ResolveResult → List String → Dict (List ℕ) → FileResolver
resolver_of n to_index delayed folder = record {
  storage = n.storage;
  indexer = n.indexer;
  queue = n.queue;
  to_index = to_index;
  delayed = delayed;
  folder = folder;
}

abbrev pub of_resolver : FileResolver → Node → Node
of_resolver r n = record n { storage = r.storage; indexer = r.indexer; queue = r.queue }

-- The message is among the tasks that node `i` has queued.
abbrev pub Waits : Task → List Task → Type 0
Waits k [] = ⊥
Waits k (l ∷ q) = (k ≡ l) ⊎ Waits k q

-- What happens in the network. A new message has an id that its author has not used, and the logs
-- stay shorter than 2 ^ 31. A node that stops loses what it had not written to its database file, and
-- starts again on this file, at any time and with whatever it draws. `wi` and `wj` are what the two nodes find around them.
pub data Move : Network → Network → Type 0 where
  own :
      (w : World) (m : DbMessage) (net : Network)
      → w.null ≡ 0
      → m.counter ≡ 0
      → any (has_id m.id) (net m.peer_id).db.rows ≡ false
      → length (truth net m.peer_id) + 1 < 2 ^ 31
      → Move net (own_message w m net)
  batch :
      (wi wj : World) (i j id : String) (counter : ℕ) (net : Network)
      → wi.null ≡ 0
      → wj.null ≡ 0
      → Move net (batch_exchange wi wj i j id counter net)
  compare :
      (wj : World) (i j : String) (states : List RepoState) (net : Network)
      → wj.null ≡ 0
      → Move net (compare_exchange wj i j states net)
  broadcast :
      (wi wj : World) (i j : String) (ms : List DbMessage) (net : Network)
      → wj.null ≡ 0
      → Waits (message_task j ms) (net i).queue
      → Move net (message_exchange wi wj i j ms net)
  restarted :
      (s : Start) (name : String) (i : String) (ctx : AppContext) (net : Network)
      → (prepare_deps s name (file_of (net i))).0 ≡ ok ctx
      → Move net (update i ctx.node net)
  asks_files :
      (wj : World) (i j : String) (net : Network)
      → Move net (update i (file_want_exchange wj i j net) net)
  resolver_steps :
      (i : String) (to_index : List ResolveResult) (delayed : List String) (folder : Dict (List ℕ))
      (r : FileResolver) (net : Network)
      → ResolverStep (resolver_of (net i) to_index delayed folder) r
      → Move net (update i (of_resolver r (net i)) net)

pub data Moves : Network → Network → Type 0 where
  rest : (net : Network) → Moves net net
  followed : (a b c : Network) → Moves a b → Move b c → Moves a c
