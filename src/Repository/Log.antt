-- ===== src/Repository/Log.antt =====
-- The log of a repository under `insert_message_batch` and `save_message`.
use paper_plane.Prelude.{
  ◌⊎◌, ℕ, suc, ◌+◌, ◌^◌, ◌<◌, ◌≡◌, ◌≢◌, refl, sym, ap, ◌∙◌, String, true, Option, List, [], ◌∷◌,
  ◌++◌, arith, inl, inr, str_eq, eq_iff, retain, retain-All, length, length-append,
  length-retain-le, ltb, All, if◌then◌else◌,
}
use paper_plane.Prelude.Word.{add64}
use paper_plane.Prelude.Exec.{Error, ok, err, Result-cases}
use paper_plane.Models.{DbMessage, MessagePayload}
use paper_plane.Messages.{MessageDatabase, is_from, save_many}
use paper_plane.Messages.Log.{log, Numbered, Numbered-append}
use paper_plane.Messages.Insert.{save_many_ok, log-append}
use paper_plane.Node.{Node, cur_counter, set_counter, cur_counter-set_counter, cur_counter_congr}
use paper_plane.Repository.{
  check_batch, newer, advance, store_batch, insert_message_batch, update_counter_many,
}
use paper_plane.Repository.Frame.{publish_many-SameStore}

-- The rows of the repository's peer are numbered from 1 without a gap, in the order in which they
-- were stored, and the counter is the number of the last.
pub record IsLog (id : String) (n : Node) : Type 0 where
  pub numbered : Numbered 1 (log id n.db)
  pub counted : cur_counter id n ≡ length (log id n.db)

-- What passes the loop is the peer's and goes on from the counter.
pub check_batch_ok :
    (id : String) (counter i : ℕ) (ms : List DbMessage)
    → check_batch id counter i ms ≡ ok tt
    → counter + i + length ms < 2 ^ 64
    → Numbered (suc (counter + i)) ms × All (λ m. is_from id m ≡ true) ms
unfolding check_batch
check_batch_ok id counter i [] e lt = (tt, tt)
check_batch_ok id counter i (m ∷ ms) e lt = ground (arith, check_batch_ok id counter (i + 1) ms)

pub check_batch_numbered :
    (id : String) (counter i : ℕ) (ms : List DbMessage)
    → Numbered (suc (counter + i)) ms
    → All (λ m. is_from id m ≡ true) ms
    → counter + i + length ms < 2 ^ 64
    → check_batch id counter i ms ≡ ok tt
unfolding check_batch
check_batch_numbered id counter i [] h f lt = refl
check_batch_numbered id counter i (m ∷ ms) h f lt =
    ground (arith, check_batch_numbered id counter (i + 1) ms)

-- A batch is stored as a whole, or nothing changes.
abbrev pub Stored : String → List DbMessage → Node → Node → Type 0
Stored id new n after =
    (save_many n.db new ≡ ok after.db)
    × (after.repositories ≡ (set_counter id (add64 (cur_counter id n) (length new)) n).repositories)
    × (after.counter_lock ≡ (update_counter_many new n).1.counter_lock)

module _ (decode : List ℕ → Option MessagePayload) (id : String) where
  store_batch_err :
      (ms : List DbMessage) (n : Node) {e : Error}
      → save_many n.db ms ≡ err e
      → (store_batch decode id ms n).1 ≡ n
  unfolding store_batch
  store_batch_err [] n h = refl
  store_batch_err (m ∷ ms) n h = ground arith

  pub store_batch_ok :
      (ms : List DbMessage) (n : Node) {db : MessageDatabase}
      → ms ≢ []
      → save_many n.db ms ≡ ok db
      → ((store_batch decode id ms n).1.db ≡ db)
        × ((store_batch decode id ms n).1.repositories
            ≡ (set_counter id (add64 (cur_counter id n) (length ms)) n).repositories)
        × ((store_batch decode id ms n).1.counter_lock ≡ (update_counter_many ms n).1.counter_lock)
  unfolding store_batch update_counter_many set_counter cur_counter
  store_batch_ok [] n ne h = absurd (ne refl)
  store_batch_ok (m ∷ ms) n {db} ne h =
      let k : Node = (update_counter_many (m ∷ ms) (record n { db = db })).1 in
      let k' : Node = (advance id (length (m ∷ ms)) k).1 in
      let same = publish_many-SameStore decode (m ∷ ms) k' in
      ground (arith, same.db, same.repositories, same.counter_lock)

  store_batch_cases :
      (new : List DbMessage) (n : Node)
      → ((store_batch decode id new n).1 ≡ n) ⊎ Stored id new n (store_batch decode id new n).1
  store_batch_cases [] n = inl (unfold store_batch in refl)
  store_batch_cases (m ∷ ms) n = elim (Result-cases (save_many n.db (m ∷ ms))) [
    | inr (e, failed) ↦ inl (store_batch_err (m ∷ ms) n failed)
    | inl (db, saved) ↦
        let (rows, counter, clock) = store_batch_ok (m ∷ ms) n (λ e. cc) saved in
        inr (saved ∙ ap ok (sym rows), counter, clock)
  ]

  pub insert_message_batch_cases :
      (ms : List DbMessage) (n : Node)
      → let new = newer (cur_counter id n) ms in
        let after = (insert_message_batch decode id ms n).1 in
        (after ≡ n) ⊎ ((check_batch id (cur_counter id n) 0 new ≡ ok tt) × Stored id new n after)
  unfolding insert_message_batch
  insert_message_batch_cases [] n = inl refl
  insert_message_batch_cases (m ∷ ms) n =
      let new = newer (cur_counter id n) (m ∷ ms) in
      ground
        (arith, Result-cases (check_batch id (cur_counter id n) 0 new), store_batch_cases new n)

module _ (id : String) where
  -- The rows and the counter after a batch was stored.
  pub log-Stored :
      (other : String) (new : List DbMessage) (n after : Node)
      → Stored id new n after
      → log other after.db ≡ log other n.db ++ retain (is_from other) new
  log-Stored other new n after h =
      ap (log other) (save_many_ok n.db new h.0) ∙ log-append other n.db new

  pub cur_counter-Stored :
      (other : String) (new : List DbMessage) (n after : Node)
      → Stored id new n after
      → cur_counter other after
        ≡ (if str_eq id other then add64 (cur_counter id n) (length new) else cur_counter other n)
  cur_counter-Stored other new n after h =
      cur_counter_congr other after (set_counter id (add64 (cur_counter id n) (length new)) n) h.1
      ∙ cur_counter-set_counter id other (add64 (cur_counter id n) (length new)) n

  -- Messages that pass the loop extend the log.
  pub log-Stored_self :
      (new : List DbMessage) (n after : Node)
      → IsLog id n
      → length (log id n.db) + length new < 2 ^ 64
      → check_batch id (cur_counter id n) 0 new ≡ ok tt
      → Stored id new n after
      → (log id after.db ≡ log id n.db ++ new)
        × (cur_counter id after ≡ length (log id after.db))
        × Numbered 1 (log id after.db)
  log-Stored_self new n after h few passed st =
      let (numbered, from_id) =
        check_batch_ok id (cur_counter id n) 0 new passed (omega (arith, h.counted)) in
      let rows : log id after.db ≡ log id n.db ++ new =
        log-Stored id new n after st
        ∙ ap (λ (l : List DbMessage). log id n.db ++ l) (retain-All (is_from id) new from_id) in
      (
        rows,
        rw rows (
            ground (
              arith,
              h.counted,
              cur_counter-Stored id new n after st,
              eq_iff id id,
              length-append (log id n.db) new,
            )),
        rw rows
            (Numbered-append 1 (log id n.db) new h.numbered (ground (arith, h.counted, numbered))),
      )

module _ (decode : List ℕ → Option MessagePayload) (id : String) where
  -- From a log, `insert_message_batch` leaves a log, whether it succeeds or fails, as long as the
  -- log and the batch together are shorter than 2 ^ 64.
  pub insert_message_batch-IsLog :
      (ms : List DbMessage) (n : Node)
      → IsLog id n
      → length (log id n.db) + length ms < 2 ^ 64
      → IsLog id (insert_message_batch decode id ms n).1
  insert_message_batch-IsLog ms n h few = elim (insert_message_batch_cases decode id ms n) [
    | inl same ↦ rw same h
    | inr (passed, st) ↦
        let new = newer (cur_counter id n) ms in
        let (rows, counter, numbered) =
          log-Stored_self id new n _ h
            (omega (arith, length-retain-le (λ m. ltb (cur_counter id n) m.counter) ms)) passed
            st in
        record { numbered = numbered; counted = counter }
  ]
