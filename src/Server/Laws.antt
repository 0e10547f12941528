-- ===== src/Server/Laws.antt =====
-- When the loop of the server returns, and what becomes of a peer that has shaken hands.
use paper_plane.Prelude.{
  ℕ, ◌≡◌, refl, String, true, false, Option, none, some, List, [], ◌∷◌, ◌++◌, arith, append-nil,
  append_assoc, eq_iff,
}
use paper_plane.Prelude.Dict.{lookup, lookup-insert}
use paper_plane.Prelude.Exec.{Result, ok, err}
use paper_plane.Handshake.{Crypto, Handshake, read_handshake}
use paper_plane.Handshake.Agreement.{IsSound, transport, dialed, handshake_agrees}
use paper_plane.Peers.{Keys}
use paper_plane.PeerPool.{PeerPool, insert_peer, live}
use paper_plane.PeerPool.Laws.{Fresh, never_died}
use paper_plane.Server.{
  Socket, hex_key, keep_peer, serve_socket, Wake, stop_changed, accept_result, Listening, listen,
  turn, run,
}

-- The sockets that come before the loop returns, and what it returns.
abbrev pub before_end : List Wake → List Socket
before_end [] = []
before_end (stop_changed true ∷ ws) = []
before_end (stop_changed false ∷ ws) = before_end ws
before_end (accept_result (err e) ∷ ws) = []
before_end (accept_result (ok s) ∷ ws) = s ∷ before_end ws

abbrev pub end : List Wake → Option (Result (Unit {0}))
end [] = none
end (stop_changed true ∷ ws) = some (ok tt)
end (stop_changed false ∷ ws) = end ws
end (accept_result (err e) ∷ ws) = some (err e)
end (accept_result (ok s) ∷ ws) = end ws

returned_stays :
    (ws : List Wake) (l : Listening) {r : Result (Unit {0})} → l.returned ≡ some r → run ws l ≡ l
unfolding run turn
returned_stays [] l h = refl
returned_stays (w ∷ ws) l h = ground (arith, returned_stays ws l h)

abbrev started : List Socket → Listening
started ss = record { spawned = ss; returned = none }

run_from :
    (ws : List Wake) (ss : List Socket)
    → run ws (started ss) ≡ record { spawned = ss ++ before_end ws; returned = end ws }
unfolding run turn
run_from [] ss = ground (arith, append-nil ss)
run_from (stop_changed true ∷ ws) ss = ground (
  arith,
  append-nil ss,
  returned_stays ws (record { spawned = ss; returned = some (ok tt) }) refl,
)
run_from (stop_changed false ∷ ws) ss = run_from ws ss
run_from (accept_result (err e) ∷ ws) ss = ground (
  arith,
  append-nil ss,
  returned_stays ws (record { spawned = ss; returned = some (err e) }) refl,
)
run_from (accept_result (ok s) ∷ ws) ss =
    ground (arith, run_from ws (ss ++ s ∷ []), append_assoc ss (s ∷ []) (before_end ws))

-- The loop returns at the first stop signal that is set, without an error, or at the first accept
-- that fails, with its error; a task is spawned for each socket that was accepted before.
pub run_lem :
    (ws : List Wake)
    → run ws (listen (ok tt)) ≡ record { spawned = before_end ws; returned = end ws }
run_lem ws = run_from ws []

serve_socket_ok :
    (c : Crypto) (k : Keys) (signing_key : List ℕ) (s : Socket) (addr : String) (pool : PeerPool)
    (h : Handshake)
    → s.peer_addr ≡ some addr
    → (read_handshake c signing_key s.secret s.transport).0 ≡ ok h
    → serve_socket c k signing_key s pool ≡ (insert_peer (hex_key k h) addr pool).1
unfolding serve_socket keep_peer
serve_socket_ok c k signing_key s addr pool h has shaken = ground arith

-- A new incoming connection of the peer, that lives, and the address for the peer.
abbrev pub Connected : String → ℕ → String → PeerPool → Type 0
Connected id handle addr s = (live s id s.incoming ≡ some handle) × (lookup id s.addrs ≡ some addr)

insert_peer-Connected :
    (id addr : String) (pool : PeerPool)
    → Fresh pool
    → pool.delegate_alive ≡ true
    → Connected id pool.next addr (insert_peer id addr pool).1
unfolding insert_peer
insert_peer-Connected id addr pool fresh alive = ground (
  arith,
  lookup-insert id id pool.next pool.incoming,
  lookup-insert id id addr pool.addrs,
  eq_iff id id,
  never_died pool.next pool.dead fresh,
)

module _ (c : Crypto) (k : Keys) (key_a secret_a key_b secret_b : List ℕ) (addr : String) where
  -- The socket of a node that dials with the key `key_a`.
  abbrev pub dialing : Socket
  dialing = record {
    transport = transport (dialed c key_a secret_a key_b secret_b).1.sent [];
    peer_addr = some addr;
    secret = secret_b;
  }

  -- If lengths, signatures and shared secrets are as the program relies on, only connections that
  -- were made have died and the pool's delegate is alive, a socket on which a node dials becomes
  -- the live incoming connection of the peer under the hexadecimal form of its key; the address
  -- that is kept for the peer is the one of this socket, whichever was known before.
  pub serve_socket-Connected :
      (pool : PeerPool)
      → IsSound c
      → Fresh pool
      → pool.delegate_alive ≡ true
      → Connected
          (k.encode_hex (c.verifying_key key_a))
          pool.next
          addr
          (serve_socket c k key_b dialing pool)
  serve_socket-Connected pool h fresh alive =
      let (key, _, shaken) = handshake_agrees c key_a secret_a key_b secret_b h in
      rw (serve_socket_ok c k key_b dialing addr pool _ refl shaken)
        (insert_peer-Connected (k.encode_hex (c.verifying_key key_a)) addr pool fresh alive)
