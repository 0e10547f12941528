-- ===== src/Tests/Networks.antt =====
-- Tests of the theorems on a network of nodes.
use paper_plane.Prelude.{
  str_eq, if◌then◌else◌, map, ◌≡◌, refl, String, true, none, some, inl, [], ◌∷◌, ◌++◌, length,
  arith, eq_iff,
}
use paper_plane.Prelude.Dict.{lookup, insert}
use paper_plane.Prelude.Exec.{ok, err, dial_failed}
use paper_plane.Messages.Query.{Orders}
use paper_plane.Messages.Insert.{unique_ids}
use paper_plane.Messages.{save, get_highest_counter}
use paper_plane.Index.{index_message}
use paper_plane.Index.Table
use paper_plane.Models.{into_message}
use paper_plane.Messages.Log.{log}
use paper_plane.Messages.Prefix.{Agree}
use paper_plane.Node.{set_counter, cur_counter}
use paper_plane.Peers.{row_of, get_peer_by_id, get_local_peer, save_row, local_peer}
use paper_plane.Repository.{save_message}
use paper_plane.Manager.{add_own_message, get_or_create_repository}
use paper_plane.Sync.Serve.{accept_peer}
use paper_plane.Network.{
  Network, Waits, own_message, batch_exchange, own, batch, restarted, update, Moves, rest, followed,
}
use paper_plane.Network.Consistent.{Consistent}
use paper_plane.Network.Reachable.{Moves-Agree, Moves-SpecRun}
use paper_plane.Requests.{message_task}
use paper_plane.Sync.{messages}
use paper_plane.Sync.Tasks.{message_request}
use paper_plane.Network.Spec.{SpecRun}
use paper_plane.Network.Kept.{views}
use paper_plane.Network.Broadcast.{broadcast_no_peer}
use paper_plane.Files
use paper_plane.Resolver.Download.{Outside}
use paper_plane.Network.Files.{Serves}
use paper_plane.AppContext.{
  AppContext, new_context, file_of, prepare_deps, init_messages, max_order,
}
use paper_plane.Peer.{Peer}
use paper_plane.Events.{send_peer}
use paper_plane.Tests.Running.{start}
use paper_plane.Network.CatchUp.{batch_exchange_lem}
use paper_plane.Tests.{key, sample, sample_node, two_messages, world}

-- Nobody has written anything.
abbrev silent : Network
silent id = record (sample_node [] []) { id = id }

silent-Consistent : Consistent silent
unfolding log
silent-Consistent = record {
  fits = λ i. record {
    online = refl;
    logs = λ id. record { numbered = tt; agrees = inl (unfold lookup in refl) };
    beginning = λ id. ([], refl);
    sound = tt;
  };
  short = λ id. omega arith;
}

-- Anna writes, then Ben asks her.
abbrev written : Network
written = own_message world (sample 0 "m1" 0) silent

abbrev asked : Network
asked = batch_exchange world world "ben" "anna" "anna" 0 written

writing : Moves silent written
unfolding log
writing =
    followed silent silent written (rest silent)
      (own world (sample 0 "m1" 0) silent refl refl refl (omega arith))

asking : Moves silent asked
asking =
    followed silent written asked writing
      (batch world world "ben" "anna" "anna" 0 written refl refl)

-- Then Carl starts on an empty file.
abbrev carl : Peer
carl = local_peer start.keys start.now (some "Carl") key key

abbrev context : AppContext
context = new_context start (carl, row_of carl ∷ [], send_peer carl []) ([], none) [] [] key true

started : (prepare_deps start "Carl" (file_of (asked "carl"))).0 ≡ ok context
unfolding prepare_deps init_messages get_local_peer save_row local_peer max_order own_message
    batch_exchange
started = refl

abbrev ended : Network
ended = update "carl" context.node asked

all_moves : Moves silent ended
all_moves = followed silent asked ended asking (restarted start "Carl" "carl" context asked started)

Moves-Agree_example :
    Consistent ended × ((i j id : String) → Agree (log id (ended i).db) (log id (ended j).db))
Moves-Agree_example = Moves-Agree silent ended all_moves silent-Consistent

written_lem :
    (log "anna" (written "anna").db ≡ log "anna" (written "ben").db ++ sample 1 "m1" 6 ∷ [])
    × (log "anna" (written "ben").db ≡ [])
    × (unique_ids ((written "ben").db.rows ++ sample 1 "m1" 6 ∷ []) ≡ true)
    × (get_peer_by_id world.keys (written "anna").peers "anna" ≡ ok none)
unfolding log own_message add_own_message get_or_create_repository save_message save set_counter
    cur_counter lookup get_peer_by_id index_message Table.save insert get_highest_counter
written_lem = (refl, refl, refl, refl)

written-Orders : Orders (log "anna" (written "anna").db)
unfolding log own_message add_own_message get_or_create_repository save_message save set_counter
    cur_counter lookup index_message Table.save insert get_highest_counter
written-Orders = (omega arith, tt)

batch_exchange_lem_example :
    let net' =
      batch_exchange world world "ben" "anna" "anna"
        (length (log "anna" (written "ben").db))
        written in
    Consistent net'
    × (log "anna" (net' "ben").db ≡ log "anna" (written "anna").db)
    × (log "anna" (net' "anna").db ≡ log "anna" (written "anna").db)
unfolding accept_peer log own_message
batch_exchange_lem_example =
    batch_exchange_lem world world "ben" "anna" "anna" (sample 1 "m1" 6 ∷ []) none written
      (Moves-Agree silent written writing silent-Consistent).0 (ground (arith, eq_iff "ben" "anna"))
      refl refl written_lem.0 written-Orders written_lem.2 written_lem.3 refl

Moves-SpecRun_example : SpecRun (views silent) (views ended)
Moves-SpecRun_example = Moves-SpecRun silent ended all_moves silent-Consistent

waiting : Waits (message_task "ben" (sample 1 "m1" 6 ∷ [])) (written "anna").queue
unfolding own_message add_own_message get_or_create_repository save_message save set_counter
    cur_counter lookup index_message Table.save insert get_highest_counter
waiting = inl refl

broadcast_no_peer_example :
    message_request world (sample 1 "m1" 6 ∷ []) (written "anna")
    ≡ (ok (messages (map into_message (sample 1 "m1" 6 ∷ [])) "anna" none), written "anna")
broadcast_no_peer_example =
    broadcast_no_peer world "anna" "ben" (sample 1 "m1" 6) [] written
      (Moves-Agree silent written writing silent-Consistent).0 waiting

-- Ben needs a file that Anna has.
abbrev sharing : Network
sharing id =
    if str_eq id "anna"
    then record (sample_node [] []) {
      id = id;
      indexer = record (two_messages.indexer) {
        file_db = record {
          rows = record { id = "f1"; format = "jpg"; local_path = "f1.jpg"; timestamp = 0 } ∷ [];
          online = true;
        };
      };
    }
    else record (sample_node [] []) {
      id = id;
      storage = record { need_resolve = "f1" ∷ []; peers_have = []; to_resolve = [] };
    }

anna-Serves : Serves "f1" (λ p. world) "anna" sharing
unfolding Files.get_by_id
anna-Serves = record {
  row = record { id = "f1"; format = "jpg"; local_path = "f1.jpg"; timestamp = 0 };
  found = refl;
  reads = (1 ∷ 2 ∷ []) ∷ (3 ∷ []) ∷ [];
  readable = refl;
  full = (refl, (refl, tt));
}

abbrev here : Outside
here = record {
  answer = λ p. err dial_failed;
  now = 0;
  make_folder = ok tt;
  write_file = λ p. ok tt;
}
