-- ===== src/Sync.antt =====
-- ChatLib/chat-arch/src/sync_engine.rs: what a node answers to a request, and what its tasks send
-- and do with an answer. The messages are those of proto/chat.proto.
pub mod Compare
pub mod Serve
pub mod Tasks
pub mod Periodic
pub mod Converge
pub mod Reachable
pub mod Transfer
use paper_plane.Prelude.{ℕ, String, Bool, Option, List}
use paper_plane.Models.{Message}
use paper_plane.Peers.{PeerMessage}

pub record ComparePayload : Type 0 where
  pub counter : ℕ
  pub peer_id : String

-- `chat_message::Variant`; a `ChatMessage` holds one or none.
pub data Variant : Type 0 where
  file_download_request : (file_id peer_id : String) → Variant
  file_download_response : (chunk : List ℕ) (last_chunk : Bool) (ext : String) → Variant
  messages : (messages : List Message) (peer_id : String) (peer : Option PeerMessage) → Variant
  message_accept : (counter : ℕ) → Variant
  batch_message_request : (my_counter : ℕ) (peer_id : String) → Variant
  batch_message_response : (messages : List Message) (peer : Option PeerMessage) → Variant
  compare_request : (compare_payload : List ComparePayload) → Variant
  compare_response : (peer_ids : List String) → Variant
  file_want_request : (file_id : List String) → Variant
  file_want_response : (file_id : List String) → Variant
