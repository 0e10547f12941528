-- ===== src/Models.antt =====
-- ChatLib/chat-arch/src/models.rs and the message types of proto/chat.proto that it converts.
-- Integers are bit patterns (Prelude.Word); a byte vector is a list of numbers.
pub mod Convert
use paper_plane.Prelude.{ℕ, String, Option, none, some, List, []}
use paper_plane.Prelude.Word.{as_i32, i32_as_u64}

-- A text that the program takes apart or orders: its code points. Texts that it only compares
-- are native.
abbrev pub Text : Type 0
Text = List ℕ

pub record DbMessage : Type 0 where
  pub counter : ℕ
  pub id : String
  pub order : ℕ
  pub timestamp : ℕ
  pub payload : List ℕ
  pub peer_id : String

pub record IndexedMessage : Type 0 where
  pub id : String
  pub order_id : Text
  pub mentions : List Text
  pub reply : Option String
  pub text : String
  pub file_id : Option String
  pub file_path : Option String
  pub peer_id : String

-- `Message` of chat.proto: `counter` is an int32, `global_counter` and `timestamp` are int64.
pub record Message : Type 0 where
  pub payload : List ℕ
  pub global_counter : ℕ
  pub timestamp : ℕ
  pub counter : ℕ
  pub peer_id : String
  pub id : String

pub record MessagePayload : Type 0 where
  pub text : String
  pub file_id : String
  pub reply_id : String
  pub mentions : List Text

-- `impl From<Message> for DbMessage`
unfoldable pub from_message : Message → DbMessage
from_message m = record {
  counter = i32_as_u64 m.counter;
  id = m.id;
  order = m.global_counter;
  timestamp = m.timestamp;
  payload = m.payload;
  peer_id = m.peer_id;
}

-- `impl Into<Message> for DbMessage`
unfoldable pub into_message : DbMessage → Message
into_message m = record {
  payload = m.payload;
  global_counter = m.order;
  timestamp = m.timestamp;
  counter = as_i32 m.counter;
  peer_id = m.peer_id;
  id = m.id;
}

pub record MessageBuilder : Type 0 where
  pub id : String
  pub timestamp : ℕ
  pub peer_id : String
  pub text : Option String
  pub file_id : Option String

unfoldable pub new : String → ℕ → String → MessageBuilder
new id timestamp peer_id = record {
  id = id;
  timestamp = timestamp;
  peer_id = peer_id;
  text = none;
  file_id = none;
}

unfoldable pub set_text : MessageBuilder → String → MessageBuilder
set_text b text = record b { text = some text }

unfoldable pub set_file_id : MessageBuilder → String → MessageBuilder
set_file_id b file_id = record b { file_id = some file_id }

-- `unwrap_or_default` of an optional text.
abbrev pub or_empty : Option String → String
or_empty none = ""
or_empty (some s) = s

unfoldable pub built_payload : MessageBuilder → MessagePayload
built_payload b = record {
  text = or_empty b.text;
  file_id = or_empty b.file_id;
  reply_id = "";
  mentions = [];
}

-- `encode` is prost's `encode_to_vec` of a payload.
unfoldable pub build : (MessagePayload → List ℕ) → MessageBuilder → DbMessage
unfolding built_payload
build encode b = record {
  counter = 0;
  id = b.id;
  order = 0;
  timestamp = b.timestamp;
  payload = encode (built_payload b);
  peer_id = b.peer_id;
}
