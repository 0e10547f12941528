-- ===== src/Peers.antt =====
-- ChatLib/chat-arch/src/peer_database.rs: the table `peers`. The keys of ed25519_dalek, the codec of
-- `hex` and the range of chrono's time stamps are parameters.
pub mod Local
use paper_plane.Prelude.{
  ◌/◌, ◌*◌, ◌^◌, ℕ, String, Bool, true, false, not, ◌&&◌, Option, none, some, List, [], ◌∷◌, ◌++◌,
  str_eq, find, retain, length, ◌==◌, if◌then◌else◌,
}
use paper_plane.Prelude.Exec.{Result, ok, err, unavailable, bad_key}
use paper_plane.Peer.{Peer}

pub record Keys : Type 0 where
  -- `VerifyingKey::from_bytes` of 32 bytes accepts them.
  pub is_key : List ℕ → Bool
  -- `hex::decode` and `hex::encode`.
  pub decode_hex : String → Option (List ℕ)
  pub encode_hex : List ℕ → String
  -- `DateTime::from_timestamp` accepts the seconds of this time.
  pub is_time : ℕ → Bool

-- `try_into` an array of 32 bytes, then `from_bytes`.
abbrev pub valid_key : Keys → List ℕ → Bool
valid_key k bytes = length bytes == 32 && k.is_key bytes

abbrev pub valid_signing_key : Option (List ℕ) → Bool
valid_signing_key none = true
valid_signing_key (some bytes) = length bytes == 32

-- `Peer::new`
unfoldable pub new_peer : Keys → ℕ → String → String → String → Result Peer
new_peer k now id name pub_key = elim (k.decode_hex pub_key) [
  | none ↦ err bad_key
  | some bytes ↦
      if valid_key k bytes
      then ok (record {
        id = id;
        name = some name;
        created_at = now;
        public_key = bytes;
        signing_key = none;
      })
      else err bad_key
]

-- `Peer` of chat.proto, and `impl Into<chat::Peer> for Peer`, which sends the id as the key.
pub record PeerMessage : Type 0 where
  pub id : String
  pub name : String
  pub pub_key : String

abbrev pub get_name : Peer → String
get_name p = elim p.name [ none ↦ "" | some n ↦ n ]

unfoldable pub into_peer_message : Peer → PeerMessage
into_peer_message p = record { id = p.id; name = get_name p; pub_key = p.id }

-- A row has the columns of a peer; a `Peer` is read from it by `row_to_peer`.
pub record PeerDatabase : Type 0 where
  pub rows : List Peer
  pub online : Bool

abbrev pub has_id : String → Peer → Bool
has_id id p = str_eq p.id id

-- `timestamp()`, and what `from_timestamp` makes of it: the whole seconds of a time.
abbrev pub whole_seconds : ℕ → ℕ
whole_seconds t = t / 10 ^ 9 * 10 ^ 9

-- What the columns hold of a peer.
abbrev pub row_of : Peer → Peer
row_of p = record p { created_at = whole_seconds p.created_at }

-- INSERT OR REPLACE: the old row goes, the new one is the last.
unfoldable pub save_row : PeerDatabase → Peer → Result PeerDatabase
save_row db p =
    if db.online
    then ok (record db { rows = retain (λ r. not (has_id p.id r)) db.rows ++ row_of p ∷ [] })
    else err unavailable

row_to_peer : Keys → Peer → Result Peer
row_to_peer k r =
    if valid_key k r.public_key && valid_signing_key r.signing_key && k.is_time r.created_at
    then ok r
    else err bad_key

read_option : Keys → Option Peer → Result (Option Peer)
read_option k none = ok none
read_option k (some r) = elim (row_to_peer k r) [ ok p ↦ ok (some p) | err e ↦ err e ]

unfoldable pub get_peer_by_id : Keys → PeerDatabase → String → Result (Option Peer)
unfolding row_to_peer read_option
get_peer_by_id k db id =
    if db.online then read_option k (find (has_id id) db.rows) else err unavailable

read_all : Keys → List Peer → Result (List Peer)
read_all k [] = ok []
read_all k (r ∷ rs) = elim (row_to_peer k r) [
  | err e ↦ err e
  | ok p ↦ elim (read_all k rs) [ ok ps ↦ ok (p ∷ ps) | err e ↦ err e ]
]

unfoldable pub get_all_peers : Keys → PeerDatabase → Result (List Peer)
unfolding row_to_peer read_all
get_all_peers k db = if db.online then read_all k db.rows else err unavailable

abbrev pub is_local : Peer → Bool
is_local p = elim p.signing_key [ none ↦ false | some s ↦ true ]

-- WHERE signing_key IS NOT NULL LIMIT 1
unfoldable pub get_local_peer : Keys → PeerDatabase → Result (Option Peer)
unfolding row_to_peer read_option
get_local_peer k db = if db.online then read_option k (find is_local db.rows) else err unavailable

-- The peer of `create_local_peer`; `public_key` and `signing_key` are the generated pair.
unfoldable pub local_peer : Keys → ℕ → Option String → List ℕ → List ℕ → Peer
local_peer k now name public_key signing_key = record {
  id = k.encode_hex public_key;
  name = name;
  created_at = now;
  public_key = public_key;
  signing_key = some signing_key;
}
