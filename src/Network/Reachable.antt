-- ===== src/Network/Reachable.antt =====
-- The network stays consistent, whatever happens in it.
use paper_plane.Prelude.{
  ℕ, ◌≡◌, refl, sym, subst, ◌⊎◌, inl, inr, String, Option, none, some, List, [], ◌∷◌, map, arith,
  All,
}
use paper_plane.Prelude.Word.{as_i32}
use paper_plane.Prelude.Exec.{Result, ok, err, Error, Result-cases, index_out_of_bounds}
use paper_plane.Models.{DbMessage, into_message}
use paper_plane.Messages.Log.{log}
use paper_plane.Messages.Prefix.{Agree, Prefix-Agree}
use paper_plane.Node.{Node}
use paper_plane.Peers.{PeerMessage, into_peer_message}
use paper_plane.Requests.{Task, RepoState, message_task}
use paper_plane.Sync.{Variant, messages}
use paper_plane.Sync.Compare.{compare_payload}
use paper_plane.Sync.Serve.{World, handle_request, serve_batch, serve_compare}
use paper_plane.Sync.Tasks.{finish_batch, finish_compare, message_request, first_peer}
use paper_plane.Network.{
  Network, update, truth, reply, own_message, batch_exchange, compare_exchange, message_exchange,
  Waits, Move, own, batch, compare, broadcast, restarted, asks_files, resolver_steps,
  file_want_exchange, of_resolver, Moves, rest, followed,
}
use paper_plane.Network.Fits.{Logs, SoundTask, Grow, All-In-Grow}
use paper_plane.Network.Exchange.{Answered, serve_batch-Received, serve_messages-Received}
use paper_plane.Network.Restart.{restart-Received}
use paper_plane.Network.Quiet.{asked-Received, resolver-Received}
use paper_plane.Network.Replies.{batch_reply-Received, compare-Received, finish_compare-Received}
use paper_plane.Network.Consistent.{Consistent, Consistent-Wireable, truth-Grow}
use paper_plane.Network.Kept.{views, Kept, Kept-refl, Kept-trans, Received-Kept, own-Appends}
use paper_plane.Network.Spec.{SpecStep, appends, learns, SpecRun, stays, goes_on}

-- What node `i` sends when it broadcasts.
sent_cases :
    (w : World) (ms : List DbMessage) (n : Node)
    → ((e : Error) × ((message_request w ms n).0 ≡ err e))
      ⊎ ((id : String) × (p : Option PeerMessage) × ((message_request w ms n).0
            ≡ ok (messages (map into_message ms) id p)))
unfolding message_request
sent_cases w [] n = inl (index_out_of_bounds, refl)
sent_cases w (m ∷ ms) n = elim (Result-cases (first_peer w m n)) [
  | inr (e, failed) ↦ inl (e, ground arith)
  | inl (none, found) ↦ inr (m.peer_id, none, ground arith)
  | inl (some p, found) ↦ inr (m.peer_id, some (into_peer_message p), ground arith)
]

pub Waits-SoundTask :
    (t : Logs) (k : Task) (q : List Task) → Waits k q → All (SoundTask t) q → SoundTask t k
Waits-SoundTask t k [] h all = absurd h
Waits-SoundTask t k (l ∷ q) (inl same) all = subst (SoundTask t) (sym same) all.0
Waits-SoundTask t k (l ∷ q) (inr h) all = Waits-SoundTask t k q h all.1

Answered-Grow : (t t' : Logs) (r : Result (List Variant)) → Grow t t' → Answered t r → Answered t' r
Answered-Grow t t' r grow (inl failed) = inl failed
Answered-Grow t t' r grow (inr (ms, p, answer, (inside, few))) =
    inr (ms, p, answer, (All-In-Grow t t' ms grow inside, few))

pub batch-Kept :
    (wi wj : World) (i j id : String) (counter : ℕ) (net : Network)
    → wi.null ≡ 0
    → wj.null ≡ 0
    → Consistent net
    → Kept net (batch_exchange wi wj i j id counter net)
unfolding batch_exchange handle_request
batch-Kept wi wj i j id counter net zi zj h =
    let (answer, nj) = serve_batch wj (as_i32 counter) id (net j) in
    let (received, answered) =
      serve_batch-Received (truth net) (Consistent-Wireable net h) wj zj (as_i32 counter) id (net j)
        (h.fits j) in
    let asked = update j nj net in
    let first_half = Received-Kept net j nj h received in
    let h1 = first_half.0 in
    let answered1 =
      Answered-Grow (truth net) (truth asked) answer (truth-Grow net j nj received.1) answered in
    let ni = (finish_batch wi id (reply answer) (asked i)).1 in
    Kept-trans net asked (update i ni asked) first_half (
      Received-Kept asked i ni h1 (
        batch_reply-Received (truth asked) (Consistent-Wireable asked h1) wi zi id answer (asked i)
          (h1.fits i) answered1))

compare-Kept :
    (wj : World) (i j : String) (states : List RepoState) (net : Network)
    → wj.null ≡ 0
    → Consistent net
    → Kept net (compare_exchange wj i j states net)
unfolding compare_exchange handle_request
compare-Kept wj i j states net zj h =
    let payload = compare_payload states in
    let (answer, nj) = serve_compare wj payload (net j) in
    let asked = update j nj net in
    let first_half =
      Received-Kept net j nj h (
        compare-Received (truth net) (Consistent-Wireable net h) wj zj payload (net j)
          (h.fits j)) in
    let ni = (finish_compare j states (reply answer) (asked i)).1 in
    Kept-trans net asked (update i ni asked) first_half (
      Received-Kept asked i ni first_half.0 (
        finish_compare-Received (truth asked) j states (reply answer) (asked i)
          (first_half.0.fits i)))

message-Kept :
    (wi wj : World) (i j : String) (ms : List DbMessage) (net : Network)
    → wj.null ≡ 0
    → Waits (message_task j ms) (net i).queue
    → Consistent net
    → Kept net (message_exchange wi wj i j ms net)
unfolding message_exchange handle_request
message-Kept wi wj i j ms net zj waits h = elim (sent_cases wi ms (net i)) [
  | inl (e, failed) ↦ rw (failed, message_exchange) (Kept-refl net h)
  | inr (id, p, sent) ↦
      let sound =
        Waits-SoundTask (truth net) (message_task j ms) (net i).queue waits (h.fits i).sound in
      rw (sent, message_exchange)
        (Received-Kept net j _ h (
          serve_messages-Received (truth net) (Consistent-Wireable net h) wj zj ms id p (net j)
            (h.fits j) sound))
]

-- A move of a consistent network is a step of what it promises.
Move-Refines :
    (a b : Network) → Move a b → Consistent a → Consistent b × SpecStep (views a) (views b)
Move-Refines a b (own w m net zero none_yet fresh few) h =
    let (reached, (m', more)) = own-Appends w.decode w.null net m zero h none_yet fresh few in
    (unfold own_message in reached, unfold own_message in appends m.peer_id m' _ _ more)
Move-Refines a b (batch wi wj i j id counter net zi zj) h =
    let (reached, more) = batch-Kept wi wj i j id counter net zi zj h in (reached, learns _ _ more)
Move-Refines a b (compare wj i j states net zj) h =
    let (reached, more) = compare-Kept wj i j states net zj h in (reached, learns _ _ more)
Move-Refines a b (broadcast wi wj i j ms net zj waits) h =
    let (reached, more) = message-Kept wi wj i j ms net zj waits h in (reached, learns _ _ more)
Move-Refines a b (restarted s name i ctx net up) h =
    let (reached, more) =
      Received-Kept net i ctx.node h
        (restart-Received s name (truth net) (net i) ctx (h.fits i) up) in
    (reached, learns _ _ more)
Move-Refines a b (asks_files wj i j net) h =
    let (reached, more) =
      Received-Kept net i (file_want_exchange wj i j net) h
        (asked-Received (truth net) wj i j net (h.fits i)) in
    (reached, learns _ _ more)
Move-Refines a b (resolver_steps i to_index delayed folder r net step) h =
    let (reached, more) =
      Received-Kept net i (of_resolver r (net i)) h
        (resolver-Received (truth net) (net i) to_index delayed folder r (h.fits i) step) in
    (reached, learns _ _ more)

Moves-Run : (a b : Network) → Moves a b → Consistent a → Consistent b × SpecRun (views a) (views b)
Moves-Run a b (rest net) h = (h, stays (views net))
Moves-Run a b (followed _ c _ path last) h =
    let (middle, run) = Moves-Run a c path h in
    let (reached, step) = Move-Refines c b last middle in
    (reached, goes_on (views a) (views c) (views b) run step)

-- Whatever happens in a consistent network, whose moves are those of Move, is what a replicated
-- log promises: step by step, an author adds one message to its own log, with the next number, and
-- nothing else changes in what any node has of any log; or no author's own log changes, and of
-- each log every node has a beginning that has only grown.
pub Moves-SpecRun : (a b : Network) → Moves a b → Consistent a → SpecRun (views a) (views b)
Moves-SpecRun a b path h = (Moves-Run a b path h).1

-- Whatever moves a network of nodes makes, in any order and any number of times (an author adds a
-- message of its own under a new id, as long as its log stays shorter than 2 ^ 31; a node asks
-- another for the messages of an author from any counter on, sends a broadcast that waits in its
-- queue, compares states, or asks which files another has; its resolver takes a step or ends a
-- download; it stops and starts again on its database file), each with NULL read as 0 where a
-- counter is read, it stays consistent, if it was so: every database answers, the rows of every
-- author are numbered from 1 without a gap at every node, with the counter of the repository if it
-- is open, and are a beginning of the author's own log; what waits to be broadcast stands in the
-- authors' logs; and these are shorter than 2 ^ 31. So of any two nodes the log of an author at
-- one goes on from that at the other.
pub Moves-Agree :
    (a b : Network)
    → Moves a b
    → Consistent a
    → Consistent b × ((i j id : String) → Agree (log id (b i).db) (log id (b j).db))
Moves-Agree a b path h =
    let reached = (Moves-Run a b path h).0 in
    (
      reached,
      λ i j id.
          Prefix-Agree (log id (b i).db) (log id (b j).db) (truth b id)
            ((reached.fits i).beginning id) ((reached.fits j).beginning id),
    )
