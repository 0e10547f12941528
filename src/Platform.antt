-- ===== src/Platform.antt =====
-- ChatLib/chat-platform/chat/src/lib.rs, the library that the apps call. A text is the list of the
-- bytes of its UTF-8 form.
pub mod Map
pub mod Txt
pub mod Number
pub mod Record
pub mod Chat
use paper_plane.Prelude.{ℕ, List}

-- A text of the platform library, as its bytes.
abbrev pub Bytes : Type 0
Bytes = List ℕ
