-- ===== src/Peer.antt =====
-- `Peer` of ChatLib/chat-arch/src/peer_database.rs. A key is the vector of its bytes,
-- and a time is in nanoseconds since 1970.
use paper_plane.Prelude.{ℕ, String, Option, List}

pub record Peer : Type 0 where
  pub id : String
  pub name : Option String
  pub created_at : ℕ
  pub public_key : List ℕ
  pub signing_key : Option (List ℕ)
