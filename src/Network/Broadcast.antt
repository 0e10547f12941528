-- ===== src/Network/Broadcast.antt =====
-- What a broadcast carries.
use paper_plane.Prelude.{◌≡◌, String, none, List, ◌∷◌, map, arith}
use paper_plane.Prelude.Exec.{ok}
use paper_plane.Models.{DbMessage, into_message}
use paper_plane.Messages.Prefix.{In-Numbered}
use paper_plane.Requests.{message_task}
use paper_plane.Sync.{messages}
use paper_plane.Sync.Serve.{World}
use paper_plane.Sync.Tasks.{message_request}
use paper_plane.Network.{Network, Waits, truth}
use paper_plane.Network.Consistent.{Consistent, Consistent-Wireable}
use paper_plane.Network.Reachable.{Waits-SoundTask}

-- The bug: in a consistent network, a broadcast that waits in a queue with a message or more never
-- carries the author's peer, as its first message never has the counter 0 at which the peer would
-- be attached; the request holds the messages and the author's id, and the node stays as it is.
pub broadcast_no_peer :
    (w : World) (i j : String) (m : DbMessage) (ms : List DbMessage) (net : Network)
    → Consistent net
    → Waits (message_task j (m ∷ ms)) (net i).queue
    → message_request w (m ∷ ms) (net i)
      ≡ (ok (messages (map into_message (m ∷ ms)) m.peer_id none), net i)
unfolding message_request
broadcast_no_peer w i j m ms net h waits =
    let sound =
      Waits-SoundTask (truth net) (message_task j (m ∷ ms)) (net i).queue waits (h.fits i).sound in
    ground (
      arith,
      In-Numbered 1 m (truth net m.peer_id) (Consistent-Wireable net h m.peer_id).0 sound.0.0,
    )
