-- ===== src/Platform/Chat.antt =====
-- `ChatManager`: the calls that the apps make on a node, and the loop that hands its events to
-- them. The thread of the runtime that a call blocks on is not modelled.
pub mod Deliver
pub mod Paths
pub mod Send
use paper_plane.Prelude.{
  ℕ, String, Bool, true, false, Option, none, some, List, [], ◌∷◌, ◌++◌, if◌then◌else◌,
}
use paper_plane.Prelude.Dict.{insert}
use paper_plane.Prelude.Exec.{
  Result, ok, err, Exec, failed_to_create_new, failed_to_send, failed_to_download,
}
use paper_plane.Models.{
  DbMessage, IndexedMessage, MessageBuilder, MessagePayload, Text, new, set_text, set_file_id,
  build,
}
use paper_plane.Events.{ChatEvent, message, peer}
use paper_plane.Peer.{Peer as DbPeer}
use paper_plane.Peers.{Keys, get_all_peers, new_peer}
use paper_plane.Files.{FileDescription}
use paper_plane.Files
use paper_plane.Index.{get_all_after_order_id}
use paper_plane.Resolver.{add_need_resolve}
use paper_plane.Node.{Node}
use paper_plane.Manager.{add_own_message}
use paper_plane.Sync.Serve.{save_peer}
use paper_plane.PeerPool.{PeerPool}

pub record Message : Type 0 where
  pub order : Text
  pub id : String
  pub text : String
  pub file_id : Option String
  pub file_path : Option String
  pub peer_id : String

pub record Peer : Type 0 where
  pub id : String
  pub name : String

pub data Event : Type 0 where
  message_event : Message → Event
  peer_event : Peer → Event

-- The context (its node, pool and peer), and the events that the delegate was given, if one is set.
pub record ChatManager : Type 0 where
  pub node : Node
  pub pool : PeerPool
  pub local : DbPeer
  pub delegate : Option (List Event)

abbrev pub message_of : IndexedMessage → Message
message_of m = record {
  order = m.order_id;
  id = m.id;
  text = m.text;
  file_id = m.file_id;
  file_path = m.file_path;
  peer_id = m.peer_id;
}

abbrev pub name_or : String → Option String → String
name_or default none = default
name_or default (some name) = name

-- `impl From<chat_arch::peer_database::Peer> for Peer`
abbrev pub peer_of : DbPeer → Peer
peer_of p = record { id = p.id; name = name_or "Default" p.name }

-- The event that the loop makes of one of the node; its default name is another one.
abbrev pub event_of : ChatEvent → Event
event_of (message m) = message_event (message_of m)
event_of (peer p) = peer_event (record { id = p.id; name = name_or "Unknown" p.name })

unfoldable pub resolve_file : String → Option String → ChatManager → ChatManager
resolve_file file_id peer_id c = record c {
  node = record (c.node) { storage = add_need_resolve file_id peer_id c.node.storage };
}

-- A message whose file has no path yet.
abbrev pub resolve_if : Option String → Option String → String → ChatManager → ChatManager
resolve_if none path peer_id c = c
resolve_if (some file_id) (some path) peer_id c = c
resolve_if (some file_id) none peer_id c = resolve_file file_id (some peer_id) c

abbrev pub give : Event → ChatManager → ChatManager
give e c = elim c.delegate [ none ↦ c | some seen ↦ record c { delegate = some (seen ++ e ∷ []) } ]

abbrev pub resolve_event : ChatEvent → ChatManager → ChatManager
resolve_event (message m) c = resolve_if m.file_id m.file_path m.peer_id c
resolve_event (peer p) c = c

unfoldable pub on_event : ChatEvent → ChatManager → ChatManager
unfolding resolve_file
on_event e c = give (event_of e) (resolve_event e c)

pub on_events : List ChatEvent → ChatManager → ChatManager
unfolding on_event
on_events [] c = c
on_events (e ∷ es) c = on_events es (on_event e c)

-- The loop of `run_loop` until the channel is empty.
unfoldable pub run_loop : ChatManager → ChatManager
unfolding on_events
run_loop c =
    let events = c.node.indexer.events in
    on_events events
      (record c { node = record (c.node) { indexer = record (c.node.indexer) { events = [] } } })

unfoldable pub set_delegate : ChatManager → ChatManager
set_delegate c = record c { delegate = some [] }

peers_of : List DbPeer → List Peer
peers_of [] = []
peers_of (p ∷ ps) = peer_of p ∷ peers_of ps

unfoldable pub get_peers : Keys → ChatManager → Result (List Peer)
unfolding peers_of
get_peers k c = elim (get_all_peers k c.node.peers) [
  | ok peers ↦ ok (peers_of peers)
  | err e ↦ err failed_to_create_new
]

unfoldable pub set_peer : Keys → ℕ → String → String → String → Exec ChatManager (Unit {0})
set_peer k now name addr pub_key c = elim (new_peer k now pub_key name pub_key) [
  | err e ↦ (err failed_to_create_new, c)
  | ok p ↦
      let (saved, node) = save_peer p c.node in
      elim saved [
        | err e ↦ (err failed_to_create_new, record c { node = node })
        | ok u ↦ (
          ok tt,
          record c {
            node = node;
            pool = record (c.pool) { addrs = insert pub_key addr c.pool.addrs };
          },
        )
      ]
]

messages_of : List IndexedMessage → List Message
messages_of [] = []
messages_of (m ∷ ms) = message_of m ∷ messages_of ms

unfoldable pub get_all_messages : ChatManager → Result (List Message)
unfolding messages_of
get_all_messages c = elim (get_all_after_order_id c.node.indexer []) [
  | ok messages ↦ ok (messages_of messages)
  | err e ↦ err failed_to_create_new
]

unfoldable pub get_file_path : String → ChatManager → Result String
get_file_path file_id c = elim (Files.get_by_id c.node.indexer.file_db file_id) [
  | err e ↦ err failed_to_download
  | ok none ↦ err failed_to_download
  | ok (some file) ↦ ok file.local_path
]

unfoldable pub set_file_path : ℕ → String → String → String → Exec ChatManager (Unit {0})
set_file_path now file_id format file_path c =
    elim (Files.save c.node.indexer.file_db
      (record { id = file_id; format = format; local_path = file_path; timestamp = now })) [
        | err e ↦ (err failed_to_download, c)
        | ok db ↦ (
          ok tt,
          record c {
            node = record (c.node) { indexer = record (c.node.indexer) { file_db = db } };
          },
        )
      ]

-- A text goes before a file; a message with neither is refused.
filled : Option String → Option String → MessageBuilder → Option MessageBuilder
filled (some text) file_id b = some (set_text b text)
filled none (some file_id) b = some (set_file_id b file_id)
filled none none b = none

-- The codec of payloads and the driver's reading of NULL.
module _ (encode : MessagePayload → List ℕ) (decode : List ℕ → Option MessagePayload)
    (null : ℕ) where
  add_built : MessageBuilder → Exec ChatManager (Unit {0})
  add_built b c =
      let (added, node) = add_own_message null decode (build encode b) c.node in
      elim added [
        | ok m ↦ (ok tt, record c { node = node })
        | err e ↦ (err failed_to_send, record c { node = node })
      ]

  -- `id` is the new uuid.
  unfoldable pub send_message :
      String → ℕ → Option String → Option String → Exec ChatManager (Unit {0})
  unfolding filled add_built
  send_message id now text file_id c = elim (filled text file_id (new id now c.local.id)) [
    | none ↦ (err failed_to_send, c)
    | some b ↦ add_built b c
  ]
