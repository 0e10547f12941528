-- ===== src/PeerLoop.antt =====
-- ChatLib/chat-arch/src/peer.rs: a connection to a peer, its flag and its inbound loop. A stream is
-- a number; the session of the multiplexer gives the events.
pub mod Laws
use paper_plane.Prelude.{
  ℕ, Bool, true, false, Option, none, some, List, [], ◌∷◌, ◌++◌, if◌then◌else◌,
}
use paper_plane.Prelude.Exec.{Result, ok, err, Exec, stream_refused}

-- `looping` is whether the inbound loop runs, `handled` the streams given to the delegate, the
-- oldest first.
pub record Connection : Type 0 where
  pub is_alive : Bool
  pub looping : Bool
  pub handled : List ℕ

-- What wakes the inbound loop: a stream is to be opened, or the session gives a stream, an error,
-- or its end.
pub data Inbound : Type 0 where
  changed : Inbound
  next_stream : ℕ → Inbound
  broken finished : Inbound

abbrev pub new_connection : Connection
new_connection = record { is_alive = true; looping = true; handled = [] }

-- `opened` is what the session answers.
unfoldable pub open_stream : Option ℕ → Exec Connection ℕ
open_stream none c = (err stream_refused, record c { is_alive = false })
open_stream (some stream) c = (ok stream, c)

abbrev leave : Connection → Connection
leave c = record c { is_alive = false; looping = false }

-- One round of the loop. Both outcomes of the delegate lead to the next round.
unfoldable pub inbound_round : Inbound → Connection → Connection
inbound_round changed c = c
inbound_round (next_stream stream) c =
    if c.looping then record c { handled = c.handled ++ stream ∷ [] } else c
inbound_round broken c = if c.looping then leave c else c
inbound_round finished c = if c.looping then leave c else c

-- What happens to a connection, in the order in which it happens.
pub data Happening : Type 0 where
  inbound : Inbound → Happening
  open_attempt : Option ℕ → Happening

unfoldable pub happen : Happening → Connection → Connection
unfolding inbound_round open_stream
happen (inbound e) c = inbound_round e c
happen (open_attempt opened) c = (open_stream opened c).1

unfoldable pub live_through : List Happening → Connection → Connection
unfolding happen
live_through [] c = c
live_through (e ∷ es) c = live_through es (happen e c)
