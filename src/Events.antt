-- ===== src/Events.antt =====
-- ChatLib/chat-arch/src/events.rs: an unbounded channel of events, the oldest first. `Events` holds
-- its own receiver, so that a send does not fail.
use paper_plane.Prelude.{List, [], ◌∷◌, ◌++◌}
use paper_plane.Models.{IndexedMessage}
use paper_plane.Peer.{Peer}

pub data ChatEvent : Type 0 where
  message : IndexedMessage → ChatEvent
  peer : Peer → ChatEvent

abbrev pub Events : Type 0
Events = List ChatEvent

abbrev pub send_message : IndexedMessage → Events → Events
send_message m tx = tx ++ message m ∷ []

abbrev pub send_peer : Peer → Events → Events
send_peer p tx = tx ++ peer p ∷ []
