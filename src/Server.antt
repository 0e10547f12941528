-- ===== src/Server.antt =====
-- ChatLib/chat-arch/src/server.rs: the loop that accepts connections, and the task that each of
-- them starts. The listener and the channel of the stop signal are those of tokio: what they give
-- are events.
pub mod Laws
pub mod Authentic
use paper_plane.Prelude.{ℕ, String, Bool, true, false, Option, none, some, List, [], ◌∷◌, ◌++◌}
use paper_plane.Prelude.Exec.{Result, ok, err, Error}
use paper_plane.Handshake.{Crypto, Handshake, Transport, read_handshake}
use paper_plane.Peers.{Keys}
use paper_plane.PeerPool.{PeerPool, insert_peer}

-- An accepted socket: what arrives on it, the address that it names, and the ephemeral secret that
-- is drawn for it.
pub record Socket : Type 0 where
  pub transport : Transport
  pub peer_addr : Option String
  pub secret : List ℕ

abbrev pub hex_key : Keys → Handshake → String
hex_key k h = k.encode_hex h.their_pub_key

module _ (c : Crypto) (k : Keys) (signing_key : List ℕ) where
  unfoldable pub keep_peer : Handshake → Option String → PeerPool → PeerPool
  keep_peer h none pool = pool
  keep_peer h (some addr) pool = (insert_peer (hex_key k h) addr pool).1

  -- The task of an accepted socket.
  unfoldable pub serve_socket : Socket → PeerPool → PeerPool
  unfolding keep_peer
  serve_socket s pool = elim (read_handshake c signing_key s.secret s.transport).0 [
    | err e ↦ pool
    | ok h ↦ keep_peer h s.peer_addr pool
  ]

-- What wakes the loop: a change of the stop signal, with its value, or an accepted socket.
pub data Wake : Type 0 where
  stop_changed : Bool → Wake
  accept_result : Result Socket → Wake

-- The tasks that were spawned, the oldest first, and what `run` has returned.
pub record Listening : Type 0 where
  pub spawned : List Socket
  pub returned : Option (Result (Unit {0}))

-- `bound` is what comes of binding the address.
abbrev pub listen : Result (Unit {0}) → Listening
listen (ok u) = record { spawned = []; returned = none }
listen (err e) = record { spawned = []; returned = some (err e) }

abbrev leave : Result (Unit {0}) → Listening → Listening
leave r l = record l { returned = some r }

-- One turn of the loop.
abbrev select : Wake → Listening → Listening
select (stop_changed true) l = leave (ok tt) l
select (stop_changed false) l = l
select (accept_result (err e)) l = leave (err e) l
select (accept_result (ok s)) l = record l { spawned = l.spawned ++ s ∷ [] }

-- A loop that has returned is not woken.
unfoldable pub turn : Wake → Listening → Listening
turn w l = elim l.returned [ some r ↦ l | none ↦ select w l ]

unfoldable pub run : List Wake → Listening → Listening
unfolding turn
run [] l = l
run (w ∷ ws) l = run ws (turn w l)

-- The spawned tasks in the order in which they finish.
unfoldable pub serve_sockets : Crypto → Keys → List ℕ → List Socket → PeerPool → PeerPool
serve_sockets c k signing_key [] pool = pool
serve_sockets c k signing_key (s ∷ ss) pool =
    serve_sockets c k signing_key ss (serve_socket c k signing_key s pool)
