-- ===== src/Peers/Local.antt =====
-- Reading back what `save_peer` wrote, and what becomes of the local identity.
use paper_plane.Prelude.{
  ℕ, ◌≡◌, refl, String, true, false, not, none, some, List, [], ◌∷◌, ◌++◌, arith, str_eq, eq_iff,
  find, retain, if◌then◌else◌,
}
use paper_plane.Prelude.Exec.{ok}
use paper_plane.Peer.{Peer}
use paper_plane.Peers.{
  Keys, PeerDatabase, has_id, valid_key, valid_signing_key, new_peer, whole_seconds, row_of,
  save_row, get_peer_by_id, is_local, get_local_peer,
}

pub find-replace :
    (p : Peer) (rows : List Peer) (id : String)
    → find (has_id id) (retain (λ r. not (has_id p.id r)) rows ++ row_of p ∷ [])
      ≡ (if str_eq p.id id then some (row_of p) else find (has_id id) rows)
find-replace p [] id = refl
find-replace p (r ∷ rs) id =
    ground (arith, find-replace p rs id, eq_iff p.id id, eq_iff r.id id, eq_iff r.id p.id)

-- A peer that was saved, with keys and a time that can be read back, replaces the one of its id,
-- with the whole seconds of its time, and every other id reads what it read before.
pub get_peer_by_id-save_row :
    (k : Keys) (db db' : PeerDatabase) (p : Peer) (id : String)
    → valid_key k p.public_key ≡ true
    → valid_signing_key p.signing_key ≡ true
    → k.is_time (whole_seconds p.created_at) ≡ true
    → save_row db p ≡ ok db'
    → get_peer_by_id k db' id
      ≡ (if str_eq p.id id then ok (some (row_of p)) else get_peer_by_id k db id)
unfolding get_peer_by_id save_row
get_peer_by_id-save_row k db db' p id key signing time e = ground (arith, find-replace p db.rows id)

-- Only rows of one id may hold a signing key.
abbrev pub OneLocal : String → List Peer → Type 0
OneLocal id [] = Unit {0}
OneLocal id (r ∷ rs) = (is_local r ≡ true → r.id ≡ id) × OneLocal id rs

no_local_left :
    (p : Peer) (rows : List Peer)
    → OneLocal p.id rows
    → is_local p ≡ false
    → find is_local (retain (λ r. not (has_id p.id r)) rows ++ row_of p ∷ []) ≡ none
no_local_left p [] one h = ground arith
no_local_left p (r ∷ rs) one h = ground (arith, no_local_left p rs one.1, one.0, eq_iff r.id p.id)

-- The bug: if the only row with a signing key is that of the node's own id, a peer that arrives
-- under this id and is saved replaces it, signing key included, so that the node has no local peer
-- any more.
pub local_peer_lost :
    (k : Keys) (now : ℕ) (id name pub_key : String) (p : Peer) (db db' : PeerDatabase)
    → OneLocal id db.rows
    → new_peer k now id name pub_key ≡ ok p
    → save_row db p ≡ ok db'
    → get_local_peer k db' ≡ ok none
unfolding get_local_peer save_row new_peer
local_peer_lost k now id name pub_key p db db' one made saved =
    ground (arith, no_local_left p db.rows)
