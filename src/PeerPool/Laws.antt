-- ===== src/PeerPool/Laws.antt =====
-- What `get` and `current_peers` promise.
use paper_plane.Prelude.{
  ℕ, ◌<◌, ◌≡◌, ◌≢◌, refl, ◌⊎◌, inl, inr, String, Bool, true, false, ◌&&◌, ◌||◌, ◌==◌, some,
  Option-cases, Bool-cases, List, [], ◌∷◌, ◌++◌, arith, any, All, contains, contains-append, str_eq,
  eq_iff,
}
use paper_plane.Prelude.Dict.{Dict, lookup, remove, lookup-insert, lookup-remove}
use paper_plane.Prelude.Exec.{Result, ok, Result-cases}
use paper_plane.Handshake.{Handshake}
use paper_plane.PeerPool.{
  PeerPool, is_alive, alive_outgoing, alive_incoming, current_peers, live, dial, dial_new,
  from_incoming, get,
}

-- Only connections that were made have died.
abbrev pub Fresh : PeerPool → Type 0
Fresh s = All (λ d. d < s.next) s.dead

pub never_died : (n : ℕ) (dead : List ℕ) → All (λ d. d < n) dead → any (λ d. d == n) dead ≡ false
never_died n [] h = refl
never_died n (d ∷ ds) h = ground (arith, never_died n ds)

-- A pool has `h` for the peer, and it is alive.
abbrev pub Holds : String → ℕ → PeerPool → Type 0
Holds peer_id h s =
    (is_alive s h ≡ true)
    × ((lookup peer_id s.outgoing ≡ some h) ⊎ (lookup peer_id s.incoming ≡ some h))

dial_new-Holds :
    (connect : String → Result Handshake) (peer_id : String) (s : PeerPool) (h : ℕ)
    → Fresh s
    → (dial_new connect peer_id s).0 ≡ ok h
    → Holds peer_id h (dial_new connect peer_id s).1
unfolding dial_new
dial_new-Holds connect peer_id s h fresh e = elim (Result-cases (dial connect s peer_id)) [
  | inr (x, failed) ↦ absurd (ground arith)
  | inl (u, reached) ↦ elim (Bool-cases s.delegate_alive) [
    | inr gone ↦ absurd (ground arith)
    | inl alive ↦
        let made : s.next ≡ h = ground arith in
        (
          ground (arith, never_died s.next s.dead fresh),
          inl (
              ground
                (arith, lookup-insert peer_id peer_id s.next s.outgoing, eq_iff peer_id peer_id)),
        )
  ]
]

live_ok :
    (s : PeerPool) (peer_id : String) (d : Dict ℕ) (h : ℕ)
    → live s peer_id d ≡ some h
    → (lookup peer_id d ≡ some h) × (is_alive s h ≡ true)
live_ok s peer_id d h e = elim (Option-cases (lookup peer_id d)) [
  | inl nothing ↦ absurd (ground arith)
  | inr (k, has) ↦ ground arith
]

from_incoming-Holds :
    (connect : String → Result Handshake) (peer_id : String) (s : PeerPool) (h : ℕ)
    → Fresh s
    → (from_incoming connect peer_id s).0 ≡ ok h
    → Holds peer_id h (from_incoming connect peer_id s).1
unfolding from_incoming
from_incoming-Holds connect peer_id s h fresh e = elim (Option-cases (live s peer_id s.incoming)) [
  | inr (k, found) ↦
      let (has, alive) = live_ok s peer_id s.incoming k found in
      let same : k ≡ h = ground arith in (ground arith, inr (ground arith))
  | inl none_left ↦ ground (
    arith,
    dial_new-Holds connect peer_id (record s { incoming = remove peer_id s.incoming }) h fresh,
  )
]

-- If only connections that were made have died, a connection that the pool returns for a peer is
-- alive, and the pool holds it for this peer.
pub get-Holds :
    (connect : String → Result Handshake) (peer_id : String) (s : PeerPool) (h : ℕ)
    → Fresh s
    → (get connect peer_id s).0 ≡ ok h
    → Holds peer_id h (get connect peer_id s).1
unfolding get
get-Holds connect peer_id s h fresh e = elim (Option-cases (live s peer_id s.outgoing)) [
  | inr (k, found) ↦
      let (has, alive) = live_ok s peer_id s.outgoing k found in
      let same : k ≡ h = ground arith in (ground arith, inl (ground arith))
  | inl none_left ↦ ground (
    arith,
    from_incoming-Holds connect peer_id (record s { outgoing = remove peer_id s.outgoing }) h fresh,
  )
]

abbrev pub alive_entry : PeerPool → String → String × ℕ → Bool
alive_entry s id (peer_id, h) = str_eq peer_id id && is_alive s h

alive_outgoing_lem :
    (s : PeerPool) (d : Dict ℕ) (id : String)
    → contains (alive_outgoing s d) id ≡ any (alive_entry s id) d
unfolding alive_outgoing
alive_outgoing_lem s [] id = refl
alive_outgoing_lem s ((peer_id, h) ∷ d) id = ground (arith, alive_outgoing_lem s d id)

alive_incoming_lem :
    (s : PeerPool) (d : Dict ℕ) (peers : List String) (id : String)
    → contains (alive_incoming s peers d) id ≡ (contains peers id || any (alive_entry s id) d)
unfolding alive_incoming
alive_incoming_lem s [] peers id = ground arith
alive_incoming_lem s ((peer_id, h) ∷ d) peers id = ground (
  arith,
  alive_incoming_lem s d peers id,
  alive_incoming_lem s d (peers ++ peer_id ∷ []) id,
  contains-append peers (peer_id ∷ []) id,
  eq_iff peer_id id,
)

-- A peer is among the current peers exactly when one of its entries, outgoing or incoming, is
-- alive.
pub current_peers_lem :
    (s : PeerPool) (id : String)
    → contains (current_peers s) id
      ≡ (any (alive_entry s id) s.outgoing || any (alive_entry s id) s.incoming)
unfolding current_peers
current_peers_lem s id = ground (
  arith,
  alive_incoming_lem s s.incoming (alive_outgoing s s.outgoing) id,
  alive_outgoing_lem s s.outgoing id,
)

-- The connections of `other` are the same.
abbrev pub SameFor : String → PeerPool → PeerPool → Type 0
SameFor other s s' =
    (lookup other s'.outgoing ≡ lookup other s.outgoing)
    × (lookup other s'.incoming ≡ lookup other s.incoming)

dial_new-SameFor :
    (connect : String → Result Handshake) (peer_id other : String) (s : PeerPool)
    → peer_id ≢ other
    → SameFor other s (dial_new connect peer_id s).1
unfolding dial_new
dial_new-SameFor connect peer_id other s ne =
    ground (arith, lookup-insert peer_id other s.next s.outgoing, eq_iff peer_id other)

-- Getting a connection to one peer changes the connections of no other.
pub get-SameFor :
    (connect : String → Result Handshake) (peer_id other : String) (s : PeerPool)
    → peer_id ≢ other
    → SameFor other s (get connect peer_id s).1
unfolding get from_incoming
get-SameFor connect peer_id other s ne = ground (
  arith,
  dial_new-SameFor connect peer_id other
      (record s { outgoing = remove peer_id s.outgoing; incoming = remove peer_id s.incoming }) ne,
  lookup-remove peer_id other s.outgoing,
  lookup-remove peer_id other s.incoming,
  eq_iff peer_id other,
)
