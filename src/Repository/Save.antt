-- ===== src/Repository/Save.antt =====
-- What `save_message` of repository.rs leaves of a log.
pub mod Cases
pub mod Published
use paper_plane.Prelude.{
  ◌⊎◌, ℕ, ◌+◌, ◌^◌, ◌<◌, ◌≡◌, ◌≢◌, refl, sym, ap, ◌∙◌, String, true, false, Bool-cases, Option,
  List, [], ◌∷◌, ◌++◌, arith, inl, inr, eq_iff, length, length-append,
}
use native.Mathlib.Decide.{ℕ_discrete}
use paper_plane.Prelude.Word.{add64}
use paper_plane.Prelude.Exec.{Error, Result, ok, err, Result-cases}
use paper_plane.Models.{DbMessage, MessagePayload}
use paper_plane.Messages.{MessageDatabase, is_from, save}
use paper_plane.Messages.Log.{log, Numbered-append}
use paper_plane.Messages.Insert.{save_ok, log-append}
use paper_plane.Node.{Node, cur_counter, set_counter, cur_counter-set_counter, cur_counter_congr}
use paper_plane.Repository.{assign_counter, advance, stored, update_counter, publish, save_message}
use paper_plane.Repository.Frame.{publish-SameStore}
use paper_plane.Repository.Log.{IsLog}
use paper_plane.Repository.Save.Cases.{
  numbered, after, Unchanged, CounterOnly, RowStored, save_message_cases, RowStored-state,
  own_failed, counted_node,
}

module _ (decode : List ℕ → Option MessagePayload) (id : String) where
  -- From a log, shorter than 2 ^ 64 - 1, `save_message` leaves a log, if the message comes with a
  -- counter or the table takes the row of the message with the next one.
  pub save_message-IsLog :
      (m : DbMessage) (n : Node)
      → IsLog id n
      → length (log id n.db) + 1 < 2 ^ 64
      → (m.counter ≢ 0) ⊎ ((db : MessageDatabase) × (save n.db (numbered decode id m n) ≡ ok db))
      → IsLog id (save_message decode id m n).1
  save_message-IsLog m n h few takes = elim (save_message_cases decode id m n) [
    | inl same ↦ rw same h
    | inr (inl (own, (e, failed), _)) ↦ absurd (ground arith)
    | inr (inr stored) ↦
        let (rows, counter, _, _) = RowStored-state decode id m n stored in
        record {
          numbered = rw rows (
              Numbered-append 1 (log id n.db) (numbered decode id m n ∷ []) h.numbered
                (ground (arith, h.counted)));
          counted = rw rows (
              ground (
                arith,
                h.counted,
                counter,
                length-append (log id n.db) (numbered decode id m n ∷ []),
              ));
        }
  ]

  -- The bug: on a log shorter than 2 ^ 64 - 1, whenever the table refuses the row of a message of
  -- the peer that has no counter yet, the call fails with the counter raised and the log as it
  -- was, so that the repository is no log any more.
  pub save_message_gap :
      (m : DbMessage) (n : Node) (e : Error)
      → IsLog id n
      → length (log id n.db) + 1 < 2 ^ 64
      → is_from id m ≡ true
      → m.counter ≡ 0
      → save n.db (numbered decode id m n) ≡ err e
      → ((save_message decode id m n).0 ≡ err e)
        × (log id (save_message decode id m n).1.db ≡ log id n.db)
        × (cur_counter id (save_message decode id m n).1 ≡ length (log id n.db) + 1)
        × ¬ IsLog id (save_message decode id m n).1
  save_message_gap m n e h few from own failed =
      let (state, result) = own_failed decode id m n from own failed in
      let rows : log id (after decode id m n).db ≡ log id n.db =
        ap (λ (x : Node). log id x.db) state ∙ unfold set_counter in refl in
      let counter : cur_counter id (after decode id m n) ≡ length (log id n.db) + 1 =
        ap (cur_counter id) state
        ∙ ground (
          arith,
          h.counted,
          cur_counter-set_counter id id (add64 (cur_counter id n) 1) n,
          eq_iff id id,
        ) in
      (result, rows, counter, λ l. absurd (omega (arith, l.counted, counter, ap length rows)))
