-- ===== src/Tests/Pool.antt =====
-- Tests of the theorems on the pool of peers and the handshake.
use paper_plane.Prelude.{
  ℕ, ◌≡◌, refl, String, true, List, [], ◌∷◌, ◌++◌, some, length, ◌==◌, arith, not, any, ◌⊎◌, ◌||◌,
}
use paper_plane.Prelude.Dict.{lookup, insert, remove}
use paper_plane.Prelude.Exec.{Result, ok}
use paper_plane.Handshake.{
  Crypto, Handshake, write_handshake, read_handshake, read_exact, read_proof,
}
use paper_plane.Handshake.Agreement.{IsSound, dialed, accepted, handshake_agrees}
use paper_plane.PeerPool.{PeerPool, get, insert_peer}
use paper_plane.PeerPool.Impostor.{get_impostor}
use paper_plane.PeerPool.Laws.{Holds, get-Holds}
use paper_plane.PeerLoop.{
  live_through, new_connection, Happening, inbound, open_attempt, next_stream, broken,
}
use paper_plane.PeerLoop.Laws.{ends, refused, arrived, live_through_lem}
use paper_plane.Server.{Socket, serve_socket, serve_sockets, keep_peer}
use paper_plane.Server.Authentic.{Proves, serve_sockets_authentic}
use paper_plane.Server.Laws.{Connected, dialing, serve_socket-Connected}
use paper_plane.Tests.{key, keys}

-- The connection to ben has died, the one from carl lives.
abbrev pub pool : PeerPool
pool = record {
  outgoing = ("ben", 0) ∷ [];
  incoming = ("carl", 1) ∷ [];
  addrs = ("ben", "10.0.0.2:9000") ∷ [];
  dead = 0 ∷ [];
  next = 2;
  delegate_alive = true;
}

-- Someone answers at every address, with this key.
abbrev stranger : Handshake
stranger = record { symmetric_key = key; their_pub_key = 9 ∷ [] }

abbrev reachable : String → Result Handshake
reachable addr = ok stranger

get-Holds_example : Holds "ben" 2 (get reachable "ben" pool).1
unfolding get lookup insert remove
get-Holds_example = get-Holds reachable "ben" pool 2 (omega arith, tt) refl

-- Keys of which only the length is looked at.
abbrev pub crypto : Crypto
crypto = record {
  ephemeral_pub = λ secret. key;
  diffie_hellman = λ secret other. [];
  verifying_key = λ signing_key. key;
  is_key = λ bytes. length bytes == 32;
  sign = λ signing_key m. key ++ key;
  verify = λ k m signature. length signature == 64;
  expand = λ secret. some key;
}

pub crypto-IsSound : IsSound crypto
crypto-IsSound = record {
  ephemeral_len = λ secret. refl;
  key_len = λ k. refl;
  signature_len = λ k m. refl;
  is_key = λ k. refl;
  verifies = λ k m. refl;
  shared = λ a b. refl;
  expands = λ secret. (key, refl);
}

handshake_agrees_example :
    (k : List ℕ) × ((dialed crypto (1 ∷ []) (2 ∷ []) (3 ∷ []) (4 ∷ [])).0
      ≡ ok (record { symmetric_key = k; their_pub_key = key }))
    × ((accepted crypto (1 ∷ []) (2 ∷ []) (3 ∷ []) (4 ∷ [])).0
        ≡ ok (record { symmetric_key = k; their_pub_key = key }))
handshake_agrees_example =
    handshake_agrees crypto (1 ∷ []) (2 ∷ []) (3 ∷ []) (4 ∷ []) crypto-IsSound

-- Whoever is at the address of Ben has the key 3.
abbrev somebody : String → Result Handshake
somebody a = (dialed crypto (1 ∷ []) (2 ∷ []) (3 ∷ []) (4 ∷ [])).0

get_impostor_example :
    let s' = (get somebody "ben" pool).1 in
    ((h : Handshake) × (somebody "10.0.0.2:9000" ≡ ok h) × (h.their_pub_key ≡ key))
    × ((get somebody "ben" pool).0 ≡ ok 2)
    × (get reachable "ben" s' ≡ (ok 2, s'))
unfolding lookup
get_impostor_example =
    get_impostor crypto (1 ∷ []) (2 ∷ []) (3 ∷ []) (4 ∷ []) "ben" "10.0.0.2:9000" somebody reachable
      pool crypto-IsSound (omega arith, tt) refl refl refl refl refl

serve_socket-Connected_example : Connected "anna" 2 "10.0.0.3:50001" (
    serve_socket crypto keys
      (3 ∷ [])
      (dialing crypto keys (1 ∷ []) (2 ∷ []) (3 ∷ []) (4 ∷ []) "10.0.0.3:50001")
      pool)
serve_socket-Connected_example =
    serve_socket-Connected crypto keys (1 ∷ []) (2 ∷ []) (3 ∷ []) (4 ∷ []) "10.0.0.3:50001" pool
      crypto-IsSound (omega arith, tt) refl

abbrev knocking : Socket
knocking = dialing crypto keys (1 ∷ []) (2 ∷ []) (3 ∷ []) (4 ∷ []) "10.0.0.3:50001"

abbrev after_knock : PeerPool
after_knock = serve_sockets crypto keys (3 ∷ []) (knocking ∷ []) pool

anna_held : lookup "anna" after_knock.incoming ≡ some 2
unfolding serve_sockets serve_socket keep_peer read_handshake read_exact read_proof write_handshake
    insert_peer insert lookup
anna_held = refl

serve_sockets_authentic_example :
    (lookup "anna" pool.incoming ≡ some 2)
    ⊎ ((before : List Socket) × (s : Socket) × (after : List Socket) × (knocking ∷ []
          ≡ before ++ s ∷ after)
        × Proves crypto keys (3 ∷ []) "anna" s)
serve_sockets_authentic_example =
    serve_sockets_authentic crypto keys (3 ∷ []) (knocking ∷ []) pool "anna" 2 anna_held

abbrev life : List Happening
life =
    inbound (next_stream 1)
    ∷ open_attempt (some 2)
    ∷ inbound (next_stream 3)
    ∷ inbound broken
    ∷ inbound (next_stream 4)
    ∷ []

live_through_lem_example :
    ((live_through life new_connection).is_alive ≡ not (any ends life || any refused life))
    × ((live_through life new_connection).handled ≡ arrived life)
live_through_lem_example = live_through_lem life
