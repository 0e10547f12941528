-- ===== src/Repository/Save/Cases.antt =====
-- The outcomes of `save_message` of repository.rs, for own messages (counter 0) and numbered ones.
use paper_plane.Prelude.{
  ◌⊎◌, ℕ, ◌≡◌, ◌≢◌, sym, ap, ◌∙◌, String, true, false, Bool-cases, Option, List, [], ◌∷◌, ◌++◌,
  arith, inl, inr, eq_iff,
}
use native.Mathlib.Decide.{ℕ_discrete}
use paper_plane.Prelude.Word.{add64}
use paper_plane.Prelude.Exec.{Error, Result, ok, err, Result-cases}
use paper_plane.Models.{DbMessage, MessagePayload}
use paper_plane.Messages.{MessageDatabase, is_from, save}
use paper_plane.Messages.Log.{log}
use paper_plane.Messages.Insert.{save_ok, log-append}
use paper_plane.Node.{Node, cur_counter, set_counter, cur_counter-set_counter, cur_counter_congr}
use paper_plane.Repository.{assign_counter, advance, stored, update_counter, publish, save_message}
use paper_plane.Repository.Frame.{publish-SameStore}

module _ (decode : List ℕ → Option MessagePayload) (id : String) where
  -- The message with the number that the repository gives next.
  abbrev pub numbered : DbMessage → Node → DbMessage
  numbered m n = record m { counter = add64 (cur_counter id n) 1 }

  abbrev pub after : DbMessage → Node → Node
  after m n = (save_message decode id m n).1

  -- The three outcomes: nothing happened, the counter alone was raised, or the row was stored.
  abbrev pub Unchanged : DbMessage → Node → Type 0
  Unchanged m n = after m n ≡ n

  abbrev pub CounterOnly : DbMessage → Node → Type 0
  CounterOnly m n =
      (m.counter ≡ 0)
      × ((e : Error) × (save n.db (numbered m n) ≡ err e))
      × (after m n ≡ set_counter id (add64 (cur_counter id n) 1) n)

  -- The node when the row was stored and counted, before it is published.
  abbrev pub counted_node : DbMessage → MessageDatabase → Node → Node
  counted_node m db n =
      (update_counter (numbered m n)
        (record (set_counter id (add64 (cur_counter id n) 1) n) { db = db })).1

  abbrev pub RowStored : DbMessage → Node → Type 0
  RowStored m n =
      (is_from id m ≡ true)
      × ((db : MessageDatabase) × (save n.db (numbered m n) ≡ ok db)
          × (save_message decode id m n ≡ publish decode (numbered m n) (counted_node m db n)))

  pub update_counter_db :
      (m : DbMessage) (db : MessageDatabase) (n : Node) → (counted_node m db n).db ≡ db
  unfolding update_counter set_counter
  update_counter_db m db n = ground arith

  pub update_counter_repositories :
      (m : DbMessage) (db : MessageDatabase) (n : Node)
      → (counted_node m db n).repositories
        ≡ (set_counter id (add64 (cur_counter id n) 1) n).repositories
  unfolding update_counter set_counter
  update_counter_repositories m db n = ground arith

  update_counter_lock :
      (m : DbMessage) (db : MessageDatabase) (n : Node)
      → (counted_node m db n).counter_lock ≡ (update_counter (numbered m n) n).1.counter_lock
  unfolding update_counter set_counter
  update_counter_lock m db n = ground arith

  refused_peer : (m : DbMessage) (n : Node) → is_from id m ≡ false → Unchanged m n
  unfolding save_message
  refused_peer m n other = ground arith

  refused_counter :
      (m : DbMessage) (n : Node)
      → m.counter ≢ 0
      → m.counter ≢ add64 (cur_counter id n) 1
      → Unchanged m n
  unfolding save_message assign_counter
  refused_counter m n own next = ground arith

  pub own_failed :
      (m : DbMessage) (n : Node) {e : Error}
      → is_from id m ≡ true
      → m.counter ≡ 0
      → save n.db (numbered m n) ≡ err e
      → (after m n ≡ set_counter id (add64 (cur_counter id n) 1) n)
        × ((save_message decode id m n).0 ≡ err e)
  unfolding save_message assign_counter set_counter
  own_failed m n from own failed = ground arith

  next_failed :
      (m : DbMessage) (n : Node) {e : Error}
      → m.counter ≢ 0
      → m.counter ≡ add64 (cur_counter id n) 1
      → save n.db m ≡ err e
      → Unchanged m n
  unfolding save_message assign_counter
  next_failed m n own next failed = ground arith

  pub own_run :
      (m : DbMessage) (n : Node) {db : MessageDatabase}
      → is_from id m ≡ true
      → m.counter ≡ 0
      → save n.db (numbered m n) ≡ ok db
      → save_message decode id m n ≡ publish decode (numbered m n) (counted_node m db n)
  unfolding save_message assign_counter set_counter update_counter
  own_run m n from own saved = ground arith

  next_run :
      (m : DbMessage) (n : Node) {db : MessageDatabase}
      → is_from id m ≡ true
      → m.counter ≢ 0
      → m.counter ≡ add64 (cur_counter id n) 1
      → save n.db m ≡ ok db
      → save_message decode id m n ≡ publish decode m (counted_node m db n)
  unfolding save_message assign_counter advance set_counter cur_counter update_counter
  next_run m n from own next saved = ground arith

  own_cases :
      (m : DbMessage) (n : Node)
      → is_from id m ≡ true
      → m.counter ≡ 0
      → CounterOnly m n ⊎ RowStored m n
  own_cases m n from own = elim (Result-cases (save n.db (numbered m n))) [
    | inr (e, failed) ↦ inl (own, (e, failed), (own_failed m n from own failed).0)
    | inl (db, saved) ↦ inr (from, (db, saved, own_run m n from own saved))
  ]

  next_cases :
      (m : DbMessage) (n : Node)
      → is_from id m ≡ true
      → m.counter ≢ 0
      → m.counter ≡ add64 (cur_counter id n) 1
      → Unchanged m n ⊎ RowStored m n
  next_cases m n from own next = elim (Result-cases (save n.db m)) [
    | inr (e, failed) ↦ inl (next_failed m n own next failed)
    | inl (db, saved) ↦
        let same : m ≡ numbered m n = ground arith in
        inr (
          from,
          (
            db,
            ap (save n.db) (sym same) ∙ saved,
            next_run m n from own next saved
                ∙ ap (λ (x : DbMessage). publish decode x (counted_node m db n)) same,
          ),
        )
  ]

  pub save_message_cases :
      (m : DbMessage) (n : Node) → Unchanged m n ⊎ (CounterOnly m n ⊎ RowStored m n)
  save_message_cases m n = elim (Bool-cases (is_from id m)) [
    | inr other ↦ inl (refused_peer m n other)
    | inl from ↦ elim (ℕ_discrete m.counter 0) [
      | yes own ↦ inr (own_cases m n from own)
      | no own ↦ elim (ℕ_discrete m.counter (add64 (cur_counter id n) 1)) [
        | no next ↦ inl (refused_counter m n own next)
        | yes next ↦ elim (next_cases m n from own next) [
          | inl same ↦ inl same
          | inr stored ↦ inr (inr stored)
        ]
      ]
    ]
  ]

  pub RowStored-state :
      (m : DbMessage) (n : Node)
      → RowStored m n
      → (log id (after m n).db ≡ log id n.db ++ numbered m n ∷ [])
        × (cur_counter id (after m n) ≡ add64 (cur_counter id n) 1)
        × ((after m n).counter_lock ≡ (update_counter (numbered m n) n).1.counter_lock)
        × ((after m n).db.rows ≡ n.db.rows ++ numbered m n ∷ [])
  RowStored-state m n (from, (db, saved, run)) =
      let k = counted_node m db n in
      let same = publish-SameStore decode (numbered m n) k in
      let rows : (after m n).db ≡ record n.db { rows = n.db.rows ++ numbered m n ∷ [] } =
        ap (λ (r : Result (Unit {0}) × Node). r.1.db) run
        ∙ same.db
        ∙ update_counter_db m db n
        ∙ save_ok n.db (numbered m n) saved in
      (
        ap (log id) rows
            ∙ log-append id n.db (numbered m n ∷ [])
            ∙ ap (λ (l : List DbMessage). log id n.db ++ l) (ground (arith, from)),
        cur_counter_congr id (after m n) (set_counter id (add64 (cur_counter id n) 1) n) (
              ap (λ (r : Result (Unit {0}) × Node). r.1.repositories) run
              ∙ same.repositories
              ∙ update_counter_repositories m db n)
            ∙ ground
                (arith, cur_counter-set_counter id id (add64 (cur_counter id n) 1) n, eq_iff id id),
        ap (λ (r : Result (Unit {0}) × Node). r.1.counter_lock) run
            ∙ same.counter_lock
            ∙ update_counter_lock m db n,
        ap (λ (d : MessageDatabase). d.rows) rows,
      )
