-- ===== src/Tests.antt =====
-- Concrete nodes and messages for the tests of the theorems.
mod Repositories
mod Syncing
mod Tables
mod Codecs
mod Connections
mod Resolving
pub mod Pool
mod Running
mod Discovery
mod Chatting
mod Networks
use paper_plane.Prelude.{ℕ, String, Bool, true, false, Option, none, some, List, [], ◌∷◌}
use paper_plane.Prelude.Dict.{Dict}
use paper_plane.Prelude.Exec.{Result, ok}
use paper_plane.Models.{DbMessage, MessagePayload}
use paper_plane.Messages.{MessageDatabase}
use paper_plane.Peer.{Peer}
use paper_plane.Peers.{Keys}
use paper_plane.Node.{Node}
use paper_plane.Sync.Transfer.{Disk}
use paper_plane.Sync.Serve.{World}

abbrev pub hello : MessagePayload
hello = record { text = "hello"; file_id = ""; reply_id = ""; mentions = [] }

-- A codec for which an empty payload is none, and every other says hello.
abbrev pub decode : List ℕ → Option MessagePayload
decode [] = none
decode (b ∷ bs) = some hello

abbrev pub sample : ℕ → String → ℕ → DbMessage
sample counter id order = record {
  counter = counter;
  id = id;
  order = order;
  timestamp = 0;
  payload = 1 ∷ [];
  peer_id = "anna";
}

-- A node that holds `rows` and has the repositories `opened`.
abbrev pub sample_node : List DbMessage → Dict ℕ → Node
sample_node rows opened = record {
  id = "anna";
  db = record { rows = rows; online = true };
  repositories = opened;
  counter_lock = 5;
  indexer = record {
    db = record { rows = []; online = true };
    file_db = record { rows = []; online = true };
    events = [];
  };
  peers = record { rows = []; online = true };
  storage = record { need_resolve = []; peers_have = []; to_resolve = [] };
  current_peers = "ben" ∷ [];
  queue = [];
  engine_alive = true;
  manager_alive = true;
}

abbrev pub two_rows : List DbMessage
two_rows = sample 1 "m1" 3 ∷ sample 2 "m2" 5 ∷ []

abbrev pub two_messages : Node
two_messages = sample_node two_rows (("anna", 2) ∷ [])

abbrev pub key : List ℕ
key =
    1 ∷ 2 ∷ 3 ∷ 4 ∷ 5 ∷ 6 ∷ 7 ∷ 8 ∷ 1 ∷ 2 ∷ 3 ∷ 4 ∷ 5 ∷ 6 ∷ 7 ∷ 8 ∷ 1 ∷ 2 ∷ 3 ∷ 4 ∷ 5 ∷ 6 ∷ 7 ∷ 8
    ∷ 1 ∷ 2 ∷ 3 ∷ 4 ∷ 5 ∷ 6 ∷ 7 ∷ 8 ∷ []

abbrev pub keys : Keys
keys = record {
  is_key = λ b. true;
  decode_hex = λ s. some key;
  encode_hex = λ b. "anna";
  is_time = λ t. true;
}

abbrev pub disk : Disk
disk = record { read = λ path. ok ((1 ∷ 2 ∷ []) ∷ (3 ∷ []) ∷ []); extension = λ path. "jpg" }

abbrev pub world : World
world = record { decode = decode; keys = keys; now = 0; null = 0; disk = disk }

abbrev pub anna : Peer
anna = record {
  id = "anna";
  name = some "Anna";
  created_at = 0;
  public_key = key;
  signing_key = some key;
}
