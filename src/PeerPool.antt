-- ===== src/PeerPool.antt =====
-- ChatLib/chat-arch/src/peer_pool.rs with the addresses of dialer.rs. A connection is a number, its
-- handle; `dead` are the handles whose `is_alive` flag (peer.rs) has been cleared.
pub mod Laws
pub mod Impostor
use paper_plane.Prelude.{
  ℕ, suc, String, Bool, true, false, not, ◌||◌, ◌==◌, Option, none, some, List, [], ◌∷◌, ◌++◌, any,
  contains, if◌then◌else◌,
}
use paper_plane.Prelude.Dict.{Dict, lookup, insert, remove, keys}
use paper_plane.Handshake.{Handshake}
use paper_plane.Prelude.Exec.{
  Result, ok, err, Exec, pure, gets, modify, or_fail, check, ◌>>=◌, ◌>>◌, dial_failed, no_delegate,
}

-- `next` is the handle of the next connection, `delegate_alive` whether the weak handle of the
-- delegate can be upgraded.
pub record PeerPool : Type 0 where
  pub outgoing : Dict ℕ
  pub incoming : Dict ℕ
  pub addrs : Dict String
  pub dead : List ℕ
  pub next : ℕ
  pub delegate_alive : Bool

abbrev pub is_alive : PeerPool → ℕ → Bool
is_alive s h = not (any (λ d. d == h) s.dead)

unfoldable pub all_peers : PeerPool → List String
all_peers s = keys s.addrs

-- The two loops of `current_peers`.
alive_outgoing : PeerPool → Dict ℕ → List String
alive_outgoing s [] = []
alive_outgoing s ((peer_id, h) ∷ d) =
    let rest = alive_outgoing s d in if is_alive s h then peer_id ∷ rest else rest

alive_incoming : PeerPool → List String → Dict ℕ → List String
alive_incoming s peers [] = peers
alive_incoming s peers ((peer_id, h) ∷ d) =
    let skipped = alive_incoming s peers d in
    let pushed = alive_incoming s (peers ++ peer_id ∷ []) d in
    if is_alive s h then (if contains peers peer_id then skipped else pushed) else skipped

unfoldable pub current_peers : PeerPool → List String
unfolding alive_outgoing alive_incoming
current_peers s = alive_incoming s (alive_outgoing s s.outgoing) s.incoming

-- `Peer::new`: a live connection.
abbrev pub new_peer : Exec PeerPool ℕ
new_peer s = (ok s.next, record s { next = suc s.next })

unfoldable pub insert_peer : String → String → Exec PeerPool (Unit {0})
insert_peer peer_id addr s =
    if s.delegate_alive
    then (
      ok tt,
      record s {
        next = suc s.next;
        addrs = insert peer_id addr s.addrs;
        incoming = insert peer_id s.next s.incoming;
      },
    )
    else (err no_delegate, s)

-- The live connection of a map, or the map without the dead one.
abbrev pub live : PeerPool → String → Dict ℕ → Option ℕ
live s peer_id d = elim (lookup peer_id d) [
  | none ↦ none
  | some h ↦ if is_alive s h then some h else none
]

-- `connect` is what comes of a connection to the address and the handshake on it, in time. Whose
-- key the handshake has shown is not looked at.
abbrev pub dial : (String → Result Handshake) → PeerPool → String → Result (Unit {0})
dial connect s peer_id = elim (lookup peer_id s.addrs) [
  | none ↦ err dial_failed
  | some addr ↦ elim (connect addr) [ ok h ↦ ok tt | err e ↦ err e ]
]

dial_new : (String → Result Handshake) → String → Exec PeerPool ℕ
dial_new connect peer_id s = elim (dial connect s peer_id) [
  | err e ↦ (err e, s)
  | ok u ↦
      if s.delegate_alive
      then (ok s.next, record s { next = suc s.next; outgoing = insert peer_id s.next s.outgoing })
      else (err no_delegate, s)
]

from_incoming : (String → Result Handshake) → String → Exec PeerPool ℕ
unfolding dial_new
from_incoming connect peer_id s = elim (live s peer_id s.incoming) [
  | some h ↦ (ok h, s)
  | none ↦ dial_new connect peer_id (record s { incoming = remove peer_id s.incoming })
]

unfoldable pub get : (String → Result Handshake) → String → Exec PeerPool ℕ
unfolding from_incoming
get connect peer_id s = elim (live s peer_id s.outgoing) [
  | some h ↦ (ok h, s)
  | none ↦ from_incoming connect peer_id (record s { outgoing = remove peer_id s.outgoing })
]
