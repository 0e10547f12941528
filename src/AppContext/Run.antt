-- ===== src/AppContext/Run.antt =====
-- The ways in which a start goes: the local peer is found or created, or there is an error.
use paper_plane.Prelude.{
  ℕ, ◌^◌, ◌<◌, ◌≡◌, refl, String, true, false, none, some, List, [], ◌∷◌, arith, inl, inr, ◌⊎◌, All,
  length, find, retain, not, ◌++◌, Bool-cases, Option-cases,
}
use paper_plane.Prelude.Word.{le_i64}
use paper_plane.Events.{send_peer}
use paper_plane.Prelude.Exec.{Result, Error, unavailable, ok, err, Result-cases}
use paper_plane.Models.{DbMessage}
use paper_plane.Peer.{Peer}
use paper_plane.Peers.{
  PeerDatabase, get_local_peer, save_row, whole_seconds, row_of, is_local, local_peer, valid_key,
  has_id,
}
use paper_plane.Manager.Clock.{NoLater, NoLater-mono}
use paper_plane.AppContext.{
  DbPool, Start, AppContext, rows_of, max_order, init_messages, create_local_peer, existing_peer,
  prepare_deps, new_context,
}

-- The orders that are positive as an i64.
abbrev pub Positive : List DbMessage → Type 0
Positive rows = All (λ r. r.order < 2 ^ 63) rows

pub max_order_lem :
    (r : DbMessage) (rs : List DbMessage)
    → Positive (r ∷ rs)
    → (best : ℕ) × (max_order (r ∷ rs) ≡ some best) × (best < 2 ^ 63) × NoLater best (r ∷ rs)
unfolding max_order
max_order_lem r [] h = (r.order, refl, h.0, (omega arith, tt))
max_order_lem r (s ∷ rs) h =
    let (best, is_max, small, all) = max_order_lem s rs h.1 in
    elim (Bool-cases (le_i64 best r.order)) [
      | inl le ↦ (
        r.order,
        ground arith,
        h.0,
        (omega arith, NoLater-mono best r.order (s ∷ rs) (ground arith) all),
      )
      | inr gt ↦ (best, ground arith, small, (ground arith, all))
    ]

find_holds : (rows : List Peer) (p : Peer) → find is_local rows ≡ some p → is_local p ≡ true
find_holds [] p h = absurd (ground arith)
find_holds (r ∷ rs) p h = ground (arith, find_holds rs p)

local_stays :
    (p : Peer) (rows : List Peer)
    → find is_local rows ≡ none
    → is_local p ≡ true
    → find is_local (retain (λ r. not (has_id p.id r)) rows ++ row_of p ∷ []) ≡ some (row_of p)
local_stays p [] absent h = ground arith
local_stays p (r ∷ rs) absent h = ground (arith, local_stays p rs)

-- The generated pair is one that can be read back, and so is the time.
pub record CanGenerate (s : Start) : Type 0 where
  pub public_key : valid_key s.keys (s.verifying_key s.generated) ≡ true
  pub signing_key : length s.generated ≡ 32
  pub is_time : s.keys.is_time (whole_seconds s.now) ≡ true

abbrev pub table : List Peer → PeerDatabase
table rows = record { rows = rows; online = true }

local_peer_cases :
    (s : Start) (rows : List Peer)
    → ((e : Error) × (get_local_peer s.keys (table rows) ≡ err e))
      ⊎ (get_local_peer s.keys (table rows) ≡ ok none)
      ⊎ ((p : Peer) × (get_local_peer s.keys (table rows) ≡ ok (some p)))
local_peer_cases s rows = elim (Result-cases (get_local_peer s.keys (table rows))) [
  | inr (e, failed) ↦ inl (e, failed)
  | inl (o, got) ↦ elim (Option-cases o) [
    | inl nothing ↦ inr (inl (ground arith))
    | inr (p, has) ↦ inr (inr (p, ground arith))
  ]
]

module _ (s : Start) (name : String) where
  abbrev start : DbPool → Result AppContext × DbPool
  start = prepare_deps s name

  refused : (pool : DbPool) → pool.online ≡ false → start pool ≡ (err unavailable, pool)
  unfolding prepare_deps
  refused pool offline = ground arith

  pub found :
      (pool : DbPool) (p : Peer) (key : List ℕ)
      → pool.online ≡ true
      → get_local_peer s.keys (table (rows_of pool.peers)) ≡ ok (some p)
      → p.signing_key ≡ some key
      → start pool ≡ (
        ok (
            new_context s
              (p, rows_of pool.peers, [])
              (rows_of pool.messages, s.read_u64 (max_order (rows_of pool.messages)))
              (rows_of pool.files)
              (rows_of pool.index)
              key
              true),
        record {
          messages = some (rows_of pool.messages);
          peers = some (rows_of pool.peers);
          files = some (rows_of pool.files);
          index = some (rows_of pool.index);
          online = true;
        },
      )
  unfolding prepare_deps existing_peer init_messages
  found pool p key online has signs = ground arith

  abbrev pub new_local : Peer
  new_local = local_peer s.keys s.now (some name) (s.verifying_key s.generated) s.generated

  abbrev pub with_local : List Peer → List Peer
  with_local rows = retain (λ r. not (has_id new_local.id r)) rows ++ row_of new_local ∷ []

  pub created :
      (pool : DbPool)
      → pool.online ≡ true
      → get_local_peer s.keys (table (rows_of pool.peers)) ≡ ok none
      → start pool ≡ (
        ok (
            new_context s
              (new_local, with_local (rows_of pool.peers), send_peer new_local [])
              (rows_of pool.messages, s.read_u64 (max_order (rows_of pool.messages)))
              (rows_of pool.files)
              (rows_of pool.index)
              s.generated
              true),
        record {
          messages = some (rows_of pool.messages);
          peers = some (with_local (rows_of pool.peers));
          files = some (rows_of pool.files);
          index = some (rows_of pool.index);
          online = true;
        },
      )
  unfolding prepare_deps existing_peer init_messages create_local_peer save_row local_peer
  created pool online absent = ground arith

  pub new_local_found :
      (rows : List Peer)
      → CanGenerate s
      → get_local_peer s.keys (table rows) ≡ ok none
      → get_local_peer s.keys (table (with_local rows)) ≡ ok (some (row_of new_local))
  unfolding get_local_peer local_peer
  new_local_found rows can absent = elim (Option-cases (find is_local rows)) [
    | inl none_local ↦ ground (
      arith,
      local_stays new_local rows none_local refl,
      can.public_key,
      can.signing_key,
      can.is_time,
    )
    | inr (r, has) ↦ absurd (ground arith)
  ]

  has_key :
      (pool : DbPool) (p : Peer)
      → pool.online ≡ true
      → get_local_peer s.keys (table (rows_of pool.peers)) ≡ ok (some p)
      → (key : List ℕ) × (p.signing_key ≡ some key)
  unfolding get_local_peer
  has_key pool p online has = elim (Option-cases (find is_local (rows_of pool.peers))) [
    | inl none_local ↦ absurd (ground arith)
    | inr (r, first) ↦
        let same : r ≡ p = ground arith in
        let local : is_local r ≡ true = find_holds (rows_of pool.peers) r first in
        elim (Option-cases p.signing_key) [
          | inl no_key ↦ absurd (ground arith)
          | inr (key, signs) ↦ (key, signs)
        ]
  ]

  pub local_peer_key : new_local.signing_key ≡ some s.generated
  unfolding local_peer
  local_peer_key = refl

  unreadable :
      (pool : DbPool) (e : Error)
      → pool.online ≡ true
      → get_local_peer s.keys (table (rows_of pool.peers)) ≡ err e
      → (start pool).0 ≡ err e
  unfolding prepare_deps existing_peer
  unreadable pool e online failed = ground arith

  -- A start that succeeds has found a local peer with a key, or has created one.
  pub ran :
      (pool : DbPool) {ctx : AppContext}
      → (start pool).0 ≡ ok ctx
      → (pool.online ≡ true)
        × ((get_local_peer s.keys (table (rows_of pool.peers)) ≡ ok none)
            ⊎ ((p : Peer) × (key : List ℕ) × (get_local_peer s.keys (table (rows_of pool.peers))
                  ≡ ok (some p))
                × (p.signing_key ≡ some key)))
  ran pool e = elim (Bool-cases pool.online) [
    | inr offline ↦ absurd (ground (arith, refused pool offline))
    | inl online ↦ elim (local_peer_cases s (rows_of pool.peers)) [
      | inl (x, failed) ↦ absurd (ground (arith, unreadable pool x online failed))
      | inr (inl absent) ↦ (online, inl absent)
      | inr (inr (p, has)) ↦
          let (key, signs) = has_key pool p online has in (online, inr (p, key, has, signs))
    ]
  ]
