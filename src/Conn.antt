-- ===== src/Conn.antt =====
-- ChatLib/chat-arch/src/conn.rs: the stream of encrypted frames over an inner stream. A frame is
-- its length as a u16, the nonce and the ciphertext. AES-GCM is a parameter.
pub mod Read
pub mod Write
pub mod RoundTrip
use paper_plane.Prelude.{ℕ, ◌+◌, ◌%◌, ◌^◌, Option, List, ◌++◌, length}
use paper_plane.Prelude.Word.{be16}

pub record Cipher : Type 0 where
  -- Of a nonce and a text.
  pub encrypt : List ℕ → List ℕ → Option (List ℕ)
  pub decrypt : List ℕ → List ℕ → Option (List ℕ)

abbrev pub nonce_size : ℕ
nonce_size = 12

-- `Poll` of std::task.
pub data Poll (A : Type 0) : Type 0 where
  pending : Poll A
  ready : A → Poll A

abbrev pub frame : List ℕ → List ℕ → List ℕ
frame nonce ciphertext = be16 ((nonce_size + length ciphertext) % 2 ^ 16) ++ nonce ++ ciphertext
