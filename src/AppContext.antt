-- ===== src/AppContext.antt =====
-- ChatLib/chat-arch/src/app_context.rs: what `prepare_deps` builds from the database file, and what
-- it leaves in the file. The tables are created by the `init` of message_database.rs,
-- peer_database.rs, file_database.rs and index_database.rs.
pub mod Run
pub mod Restart
use paper_plane.Prelude.{
  ℕ, String, Bool, true, false, Option, none, some, List, [], ◌∷◌, if◌then◌else◌,
}
use paper_plane.Prelude.Word.{le_i64}
use paper_plane.Prelude.Exec.{
  Result, ok, err, Exec, pure, fail, lift, gets, or_fail, ◌>>=◌, ◌>>◌, unavailable, bad_key,
}
use paper_plane.Models.{DbMessage}
use paper_plane.Messages.{MessageDatabase}
use paper_plane.Peer.{Peer}
use paper_plane.Peers.{Keys, PeerDatabase, save_row, get_local_peer, local_peer}
use paper_plane.Events.{Events, send_peer}
use paper_plane.Files.{FileDatabase, FileDescription}
use paper_plane.Index.Table.{IndexedMessageDatabase, Row}
use paper_plane.Node.{Node}
use paper_plane.PeerPool.{PeerPool}

-- The database file behind the pool; a table that was not created yet is `none`.
pub record DbPool : Type 0 where
  pub messages : Option (List DbMessage)
  pub peers : Option (List Peer)
  pub files : Option (List FileDescription)
  pub index : Option (List Row)
  pub online : Bool

-- What a node leaves in the file when it stops: the rows of its tables.
abbrev pub file_of : Node → DbPool
file_of n = record {
  messages = some n.db.rows;
  peers = some n.peers.rows;
  files = some n.indexer.file_db.rows;
  index = some n.indexer.db.rows;
  online = n.db.online;
}

-- What the start draws and reads outside of the program.
pub record Start : Type 0 where
  pub keys : Keys
  pub now : ℕ
  -- The bytes of the key that `create_local_peer` generates, and the verifying key of a key.
  pub generated : List ℕ
  pub verifying_key : List ℕ → List ℕ
  -- What the driver reads as a u64 from a MAX over the rows: `none` is NULL.
  pub read_u64 : Option ℕ → Option ℕ

pub record AppContext : Type 0 where
  pub node : Node
  pub pool : PeerPool
  pub peer : Peer
  pub signing_key : List ℕ

-- CREATE TABLE IF NOT EXISTS
abbrev pub rows_of {ℓ} : {A : Type ℓ} → Option (List A) → List A
rows_of none = []
rows_of (some rows) = rows

abbrev create :
    {A : Type 0} → (DbPool → Option (List A)) → (List A → DbPool → DbPool) → Exec DbPool (List A)
create table put pool =
    if pool.online
    then (ok (rows_of (table pool)), put (rows_of (table pool)) pool)
    else (err unavailable, pool)

-- MAX(order_counter), over i64.
unfoldable pub max_order : List DbMessage → Option ℕ
max_order [] = none
max_order (r ∷ rs) = elim (max_order rs) [
  | none ↦ some r.order
  | some best ↦ some (if le_i64 best r.order then r.order else best)
]

-- `MessageDatabase::init`, with the table that it creates.
unfoldable pub init_messages : Start → Exec DbPool (List DbMessage × Option ℕ)
unfolding max_order
init_messages s = do
  rows ← create (λ p. p.messages) (λ rows p. record p { messages = some rows })
  pure (rows, s.read_u64 (max_order rows))

abbrev pub or_one : Option ℕ → ℕ
or_one none = 1
or_one (some c) = c

-- `create_local_peer`: the row and the event of a new peer.
create_local_peer : Start → String → List Peer → Exec DbPool (Peer × List Peer × Events)
create_local_peer s name rows p =
    let peer = local_peer s.keys s.now (some name) (s.verifying_key s.generated) s.generated in
    elim (save_row (record { rows = rows; online = p.online }) peer) [
      | err e ↦ (err e, p)
      | ok db ↦ (ok (peer, db.rows, send_peer peer []), record p { peers = some db.rows })
    ]

existing_peer : Start → String → List Peer → Exec DbPool (Peer × List Peer × Events)
unfolding create_local_peer
existing_peer s name rows p =
    elim (get_local_peer s.keys (record { rows = rows; online = p.online })) [
      | err e ↦ (err e, p)
      | ok none ↦ create_local_peer s name rows p
      | ok (some peer) ↦ (ok (peer, rows, []), p)
    ]

-- The objects, over the tables and the key.
abbrev pub new_context :
    Start
    → Peer × List Peer × Events
    → List DbMessage × Option ℕ
    → List FileDescription
    → List Row
    → List ℕ
    → Bool
    → AppContext
new_context s (peer, peers, events) (messages, counter) files index signing_key online = record {
  node = record {
    id = s.keys.encode_hex (s.verifying_key signing_key);
    db = record { rows = messages; online = online };
    repositories = [];
    counter_lock = or_one counter;
    indexer = record {
      db = record { rows = index; online = online };
      file_db = record { rows = files; online = online };
      events = events;
    };
    peers = record { rows = peers; online = online };
    storage = record { need_resolve = []; peers_have = []; to_resolve = [] };
    current_peers = [];
    queue = [];
    engine_alive = true;
    manager_alive = true;
  };
  pool = record {
    outgoing = [];
    incoming = [];
    addrs = [];
    dead = [];
    next = 0;
    delegate_alive = true;
  };
  peer = peer;
  signing_key = signing_key;
}

unfoldable pub prepare_deps : Start → String → Exec DbPool AppContext
unfolding init_messages existing_peer
prepare_deps s name = do
  peers ← create (λ p. p.peers) (λ rows p. record p { peers = some rows })
  existing ← existing_peer s name peers
  counter ← init_messages s
  files ← create (λ p. p.files) (λ rows p. record p { files = some rows })
  index ← create (λ p. p.index) (λ rows p. record p { index = some rows })
  signing_key ← or_fail existing.0.signing_key bad_key
  online ← gets (λ p. p.online)
  pure (new_context s existing counter files index signing_key online)
