-- ===== src/AppContext/Restart.antt =====
-- A start takes up what the last run left: the identity, and an order counter that no message in
-- the table is above.
use paper_plane.Prelude.{
  ℕ, ◌^◌, ◌<◌, ◌≡◌, refl, sym, ap, subst, ◌∙◌, String, true, some, Option, List, [], ◌∷◌, arith,
  inl, inr,
}
use paper_plane.Prelude.Exec.{Result, ok}
use paper_plane.Models.{DbMessage}
use paper_plane.Messages.{MessageDatabase}
use paper_plane.Peers.{get_local_peer, whole_seconds, row_of}
use paper_plane.Peer.{Peer}
use paper_plane.Manager.Clock.{NoLater, IsClock}
use paper_plane.AppContext.{
  DbPool, Start, AppContext, rows_of, max_order, or_one, prepare_deps, new_context,
}
use paper_plane.AppContext.Run.{
  Positive, max_order_lem, CanGenerate, table, found, created, new_local_found, local_peer_key, ran,
}

-- The same identity, but for the fraction of a second in its time, over the same messages.
abbrev pub SameNode : AppContext → AppContext → Type 0
SameNode a b =
    (row_of a.peer ≡ row_of b.peer)
    × (a.signing_key ≡ b.signing_key)
    × (a.node.id ≡ b.node.id)
    × (a.node.db.rows ≡ b.node.db.rows)
    × (a.node.counter_lock ≡ b.node.counter_lock)

row_of_twice : (p : Peer) → row_of (row_of p) ≡ row_of p
row_of_twice p =
    let e : whole_seconds (whole_seconds p.created_at) ≡ whole_seconds p.created_at = omega arith in
    ap (λ (t : ℕ). record p { created_at = t }) e

-- Another start with the same keys, at another time, that would generate another key.
abbrev pub later : Start → ℕ → List ℕ → Start
later s now generated = record s { now = now; generated = generated }

module _ (s : Start) (name other : String) (now : ℕ) (generated : List ℕ) where
  abbrev Again : DbPool → AppContext → Type 0
  Again pool ctx =
      (ctx' : AppContext) × ((prepare_deps (later s now generated) other
          (prepare_deps s name pool).1).0
        ≡ ok ctx')
      × SameNode ctx' ctx

  abbrev next_context : DbPool → Peer → AppContext → AppContext
  next_context pool p first =
      new_context (later s now generated) (p, rows_of pool.peers, [])
        (rows_of pool.messages, s.read_u64 (max_order (rows_of pool.messages))) (rows_of pool.files)
        (rows_of pool.index) first.signing_key true

  -- A second start from what a first one has left.
  take_up :
      (pool pool' : DbPool) (p : Peer) (ctx first : AppContext)
      → (prepare_deps s name pool).0 ≡ ok ctx
      → prepare_deps s name pool ≡ (ok first, pool')
      → pool'.online ≡ true
      → get_local_peer s.keys (table (rows_of pool'.peers)) ≡ ok (some p)
      → p.signing_key ≡ some first.signing_key
      → SameNode (next_context pool' p first) first
      → Again pool ctx
  take_up pool pool' p ctx first e run online has signs same =
      let again = found (later s now generated) other pool' p first.signing_key online has signs in
      let is_first : first ≡ ctx = ground arith in
      (
        _,
        ap (λ (r : Result AppContext × DbPool). r.0)
            (ap (λ (r : Result AppContext × DbPool). prepare_deps (later s now generated) other r.1)
                run
              ∙ again),
        subst (SameNode (next_context pool' p first)) is_first same,
      )

-- When a start has succeeded, with a generated key and a time whose whole seconds can be read
-- back, a second start on the file that it has left succeeds too, whatever name it is given,
-- whatever it would generate and whenever it runs, and has the same peer but for the fraction of a
-- second in its time of creation, the same key, the same id of the node, the same messages and the
-- same order counter.
pub prepare_deps_again :
    (s : Start) (name other : String) (now : ℕ) (generated : List ℕ) (pool : DbPool)
    (ctx : AppContext)
    → CanGenerate s
    → (prepare_deps s name pool).0 ≡ ok ctx
    → (ctx' : AppContext) × ((prepare_deps
          (later s now generated)
          other
          (prepare_deps s name pool).1).0
        ≡ ok ctx')
      × SameNode ctx' ctx
prepare_deps_again s name other now generated pool ctx can e =
    let (online, way) = ran s name pool e in
    elim way [
      | inl absent ↦
          let here = new_local_found s name (rows_of pool.peers) can absent in
          take_up s name other now generated pool _ _ ctx _ e (created s name pool online absent)
            refl here (local_peer_key s name) (row_of_twice _, refl, refl, refl, refl)
      | inr (p, key, has, signs) ↦
          take_up s name other now generated pool _ p ctx _ e
            (found s name pool p key online has signs) refl has signs (refl, refl, refl, refl, refl)
    ]

-- What a start takes from the table of messages, with nothing open and nothing queued.
abbrev pub Read : Start → DbPool → AppContext → Type 0
Read s pool ctx =
    (ctx.node.db ≡ record { rows = rows_of pool.messages; online = true })
    × (ctx.node.counter_lock ≡ or_one (s.read_u64 (max_order (rows_of pool.messages))))
    × (ctx.node.repositories ≡ [])
    × (ctx.node.queue ≡ [])
    × (ctx.node.manager_alive ≡ true)

pub prepare_deps-Read :
    (s : Start) (name : String) (pool : DbPool) (ctx : AppContext)
    → (prepare_deps s name pool).0 ≡ ok ctx
    → Read s pool ctx
prepare_deps-Read s name pool ctx e =
    let (online, way) = ran s name pool e in
    elim way [
      | inl absent ↦ ground (arith, created s name pool online absent)
      | inr (p, key, has, signs) ↦ ground (arith, found s name pool p key online has signs)
    ]

highest-NoLater :
    (read : Option ℕ → Option ℕ) (rows : List DbMessage)
    → ((order : ℕ) → order < 2 ^ 63 → read (some order) ≡ some order)
    → Positive rows
    → NoLater (or_one (read (max_order rows))) rows
highest-NoLater read [] reads positive = tt
highest-NoLater read (r ∷ rs) reads positive =
    let (best, is_max, small, all) = max_order_lem r rs positive in
    subst (λ (c : ℕ). NoLater c (r ∷ rs))
      (sym (ap (λ (o : Option ℕ). or_one (read o)) is_max ∙ ap or_one (reads best small))) all

-- If the driver reads numbers below 2 ^ 63 as they are and the orders in the table are below 2 ^
-- 63, a start that succeeds holds the messages of the table, and its order counter is at least the
-- order of every one of them.
pub prepare_deps-IsClock :
    (s : Start) (name : String) (pool : DbPool) (ctx : AppContext)
    → ((order : ℕ) → order < 2 ^ 63 → s.read_u64 (some order) ≡ some order)
    → Positive (rows_of pool.messages)
    → (prepare_deps s name pool).0 ≡ ok ctx
    → (ctx.node.db.rows ≡ rows_of pool.messages) × IsClock ctx.node
prepare_deps-IsClock s name pool ctx reads positive e =
    let (db, counter, _, _, _) = prepare_deps-Read s name pool ctx e in
    let rows = ap (λ (d : MessageDatabase). d.rows) db in
    (rows, rw (rows, counter) (highest-NoLater s.read_u64 (rows_of pool.messages) reads positive))
