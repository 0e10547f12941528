-- ===== src/PeerPool/Impostor.antt =====
-- A node that dials a peer and reaches somebody else.
use paper_plane.Prelude.{
  ◌≡◌, ◌∙◌, refl, String, true, false, none, some, List, arith, eq_iff, ℕ, any, ◌==◌,
}
use paper_plane.Prelude.Dict.{lookup, remove, lookup-insert}
use paper_plane.Prelude.Exec.{Result, ok}
use paper_plane.Handshake.{Crypto, Handshake}
use paper_plane.Handshake.Agreement.{IsSound, dialed, handshake_agrees}
use paper_plane.PeerPool.{PeerPool, live, dial_new, from_incoming, get}
use paper_plane.PeerPool.Laws.{Fresh, never_died}

module _ (c : Crypto) (key_a secret_a key_b secret_b : List ℕ) (peer_id addr : String) where
  taken :
      (connect : String → Result Handshake) (s : PeerPool) (h : Handshake)
      → live s peer_id s.outgoing ≡ none
      → live s peer_id s.incoming ≡ none
      → lookup peer_id s.addrs ≡ some addr
      → connect addr ≡ ok h
      → s.delegate_alive ≡ true
      → let s' = (get connect peer_id s).1 in
        ((get connect peer_id s).0 ≡ ok s.next)
        × (lookup peer_id s'.outgoing ≡ some s.next)
        × (s'.dead ≡ s.dead)
  unfolding get from_incoming dial_new
  taken connect s h no_out no_in known shaken alive = ground (
    arith,
    lookup-insert peer_id peer_id s.next (remove peer_id s.outgoing),
    eq_iff peer_id peer_id,
  )

  reused :
      (connect : String → Result Handshake) (s : PeerPool) (h : ℕ)
      → lookup peer_id s.outgoing ≡ some h
      → any (λ d. d == h) s.dead ≡ false
      → get connect peer_id s ≡ (ok h, s)
  unfolding get
  reused connect s h has alive = ground arith

  -- The bug: if lengths, signatures and shared secrets are as the program relies on, only
  -- connections that were made have died, a peer has no live connection, and a node with any key
  -- at all shakes hands at the address that is known for the peer, while the delegate is alive,
  -- then the handshake shows this key, whatever the peer's id is, and the pool returns the new
  -- connection as one to the peer, now and, without dialing, the next time that the peer is asked
  -- for.
  pub get_impostor :
      (connect connect' : String → Result Handshake) (s : PeerPool)
      → IsSound c
      → Fresh s
      → live s peer_id s.outgoing ≡ none
      → live s peer_id s.incoming ≡ none
      → lookup peer_id s.addrs ≡ some addr
      → connect addr ≡ (dialed c key_a secret_a key_b secret_b).0
      → s.delegate_alive ≡ true
      → let s' = (get connect peer_id s).1 in
        ((h : Handshake) × (connect addr ≡ ok h) × (h.their_pub_key ≡ c.verifying_key key_b))
        × ((get connect peer_id s).0 ≡ ok s.next)
        × (get connect' peer_id s' ≡ (ok s.next, s'))
  get_impostor connect connect' s sound fresh no_out no_in known reached alive =
      let (key, shaken, _) = handshake_agrees c key_a secret_a key_b secret_b sound in
      let h : Handshake = record { symmetric_key = key; their_pub_key = c.verifying_key key_b } in
      let (returned, held, same) = taken connect s h no_out no_in known (reached ∙ shaken) alive in
      (
        (h, reached ∙ shaken, refl),
        returned,
        reused connect' (get connect peer_id s).1 s.next held
            (rw same (never_died s.next s.dead fresh)),
      )
