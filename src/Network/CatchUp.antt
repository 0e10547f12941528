-- ===== src/Network/CatchUp.antt =====
-- A node that asks an author for what it does not have.
use paper_plane.Prelude.{
  ℕ, ◌≡◌, ◌≢◌, refl, sym, ap, ◌∙◌, inl, inr, String, true, Option, List, [], ◌∷◌, ◌++◌, arith,
  length, any-append,
}
use paper_plane.Prelude.Word.{as_i32}
use paper_plane.Prelude.Exec.{Result, ok, Result-cases}
use paper_plane.Models.{DbMessage}
use paper_plane.Messages.{has_id}
use paper_plane.Messages.Log.{log}
use paper_plane.Messages.Query.{Orders}
use paper_plane.Messages.Insert.{unique_ids}
use paper_plane.Node.{Node}
use paper_plane.Peer.{Peer}
use paper_plane.Peers.{get_peer_by_id}
use paper_plane.Manager.Clock.{get_or_create_frame}
use paper_plane.Sync.{Variant}
use paper_plane.Sync.Serve.{World, accept_peer, peer_message, serve_batch, handle_request}
use paper_plane.Sync.Tasks.{finish_batch}
use paper_plane.Sync.Converge.{pull, Ahead, pull_lem}
use paper_plane.Sync.Converge.Steps.{offered}
use paper_plane.Sync.Reachable.{batch-SameClock}
use paper_plane.Network.{Network, update, truth, reply, batch_exchange}
use paper_plane.Network.Reachable.{batch-Kept}
use paper_plane.Messages.Prefix.{Prefix-length}
use paper_plane.Network.Consistent.{Consistent, update_self, update_other}

unique_ids-append : (xs ys : List DbMessage) → unique_ids (xs ++ ys) ≡ true → unique_ids xs ≡ true
unique_ids-append [] ys h = refl
unique_ids-append (x ∷ xs) ys h =
    ground (arith, unique_ids-append xs ys, any-append (has_id x.id) xs ys)

-- What the asking side makes of the answer, an error included.
finished :
    (wi wj : World) (id : String) (c : ℕ) (a b : Node)
    → (finish_batch wi id (reply (serve_batch wj (as_i32 c) id b).0) a).1 ≡ (pull wi wj id c a b).1
unfolding pull finish_batch
finished wi wj id c a b = elim (Result-cases (serve_batch wj (as_i32 c) id b).0) [
  | inl (answer, given) ↦ rw (given, pull) refl
  | inr (e, failed) ↦ rw (failed, pull) refl
]

module _ (wi wj : World) (i j id : String) (c : ℕ) (net : Network) (apart : i ≢ j) where
  abbrev served : Result (List Variant) × Node
  served = serve_batch wj (as_i32 c) id (net j)

  abbrev asked : Network
  asked = update j served.1 net

  abbrev asking : Node
  asking = (finish_batch wi id (reply served.0) (asked i)).1

  exchanged : batch_exchange wi wj i j id c net i ≡ (pull wi wj id c (net i) (net j)).1
  unfolding batch_exchange handle_request
  exchanged =
      update_self i asking asked
      ∙ ap (λ (a : Node). (finish_batch wi id (reply served.0) a).1)
          (update_other j i served.1 net (λ e. apart (sym e)))
      ∙ finished wi wj id c (net i) (net j)

  answering : log id (batch_exchange wi wj i j id c net j).db ≡ log id (net j).db
  unfolding batch_exchange handle_request
  answering =
      ap (λ (n : Node). log id n.db)
        (update_other i j asking asked apart ∙ update_self j served.1 net)
      ∙ ap (log id) (
          (batch-SameClock wj (as_i32 c) id (net j)).0 ∙ (get_or_create_frame wj.null id (net j)).0)

-- In a consistent network in which NULL is read as 0, a node that asks another, whose log of an
-- author goes on from its own, for the messages from its own counter on, has the whole log of the
-- other then, which stays as it was, and the network is consistent; provided that the orders in
-- this log are below 2 ^ 63, so that the other node can read them, that the ids of the asking
-- node's rows and of the messages that it has not are all different, that the other node can read
-- the author's peer, and that the asking node accepts the peer that comes with a first answer.
pub batch_exchange_lem :
    (wi wj : World) (i j id : String) (rest : List DbMessage) (p : Option Peer) (net : Network)
    → Consistent net
    → i ≢ j
    → wi.null ≡ 0
    → wj.null ≡ 0
    → log id (net j).db ≡ log id (net i).db ++ rest
    → Orders (log id (net j).db)
    → unique_ids ((net i).db.rows ++ rest) ≡ true
    → get_peer_by_id wj.keys (net j).peers id ≡ ok p
    → let have = length (log id (net i).db) in
      (accept_peer wi (peer_message wj (offered have p)) (net i)).0 ≡ ok tt
      → let net' = batch_exchange wi wj i j id have net in
        Consistent net'
        × (log id (net' i).db ≡ log id (net j).db)
        × (log id (net' j).db ≡ log id (net j).db)
batch_exchange_lem wi wj i j id rest p net h apart zi zj goes_on orders fresh peer accepted =
    let have = length (log id (net i).db) in
    let fi = h.fits i in
    let fj = h.fits j in
    let ahead : Ahead wi wj id (net i) (net j) rest = record {
      null_a = zi;
      null_b = zj;
      online_a = fi.online;
      online_b = fj.online;
      log_a = fi.logs id;
      log_b = fj.logs id;
      goes_on = goes_on;
      small =
          omega
            (arith, h.short id, Prefix-length (log id (net j).db) (truth net id) (fj.beginning id));
      orders = orders;
      unique = unique_ids-append (net i).db.rows rest fresh;
      fresh = fresh;
    } in
    let (caught_up, _) = pull_lem wi wj id (net i) (net j) rest p ahead peer accepted in
    (
      (batch-Kept wi wj i j id have net zi zj h).0,
      ap (λ (n : Node). log id n.db) (exchanged wi wj i j id have net apart) ∙ caught_up,
      answering wi wj i j id have net apart,
    )
