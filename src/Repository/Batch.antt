-- ===== src/Repository/Batch.antt =====
-- What a batch leaves in the log: accepted batches, repeated ones, and other repositories.
use paper_plane.Prelude.{
  ℕ, suc, ◌+◌, ◌-◌, ◌^◌, ◌≤◌, ◌<◌, ◌≡◌, ◌≢◌, refl, ap, ◌∙◌, String, true, Option, List, [], ◌∷◌,
  ◌++◌, arith, inl, inr, eq_iff, retain, retain-All, length, length-retain-le, ltb, All, All-drop,
  drop, length-drop, append-nil,
}
use paper_plane.Prelude.Exec.{ok}
use paper_plane.Models.{DbMessage, MessagePayload}
use paper_plane.Messages.{is_from, save_many}
use paper_plane.Messages.Log.{log, Numbered, Numbered-drop, retain_above-Numbered}
use paper_plane.Messages.Insert.{unique_ids, save_many_lem, log-append}
use paper_plane.Node.{Node, cur_counter}
use paper_plane.Repository.{check_batch, newer, store_batch, insert_message_batch}
use paper_plane.Repository.Log.{
  IsLog, check_batch_ok, check_batch_numbered, insert_message_batch_cases, log-Stored,
  store_batch_ok, cur_counter-Stored,
}

-- Raising the counter leaves less that is new.
newer-newer : (c d : ℕ) (ms : List DbMessage) → c ≤ d → newer d ms ≡ newer d (newer c ms)
newer-newer c d [] h = refl
newer-newer c d (m ∷ ms) h = ground (arith, newer-newer c d ms)

none_newer :
    (k c : ℕ) (ms : List DbMessage) → Numbered (suc k) ms → k + length ms ≤ c → newer c ms ≡ []
none_newer k c [] h le = refl
none_newer k c (m ∷ ms) h le = ground (arith, none_newer (suc k) c ms)

pub none_from_other :
    (id other : String) (new : List DbMessage)
    → id ≢ other
    → All (λ m. is_from id m ≡ true) new
    → retain (is_from other) new ≡ []
none_from_other id other [] ne h = refl
none_from_other id other (m ∷ new) ne h =
    ground (arith, none_from_other id other new ne h.1, eq_iff m.peer_id id, eq_iff m.peer_id other)

module _ (decode : List ℕ → Option MessagePayload) (id : String) where
  no_news :
      (ms : List DbMessage) (n : Node)
      → newer (cur_counter id n) ms ≡ []
      → (insert_message_batch decode id ms n).1 ≡ n
  unfolding insert_message_batch check_batch
  no_news [] n h = refl
  no_news (m ∷ ms) n h = ground arith

  insert_passed :
      (ms : List DbMessage) (n : Node)
      → check_batch id (cur_counter id n) 0 (newer (cur_counter id n) ms) ≡ ok tt
      → (insert_message_batch decode id ms n).1
        ≡ (store_batch decode id (newer (cur_counter id n) ms) n).1
  unfolding insert_message_batch
  insert_passed [] n h = unfold store_batch in refl
  insert_passed (m ∷ ms) n h = ground arith

  stored_log :
      (new : List DbMessage) (n : Node)
      → All (λ m. is_from id m ≡ true) new
      → save_many n.db new ≡ ok (record n.db { rows = n.db.rows ++ new })
      → log id (store_batch decode id new n).1.db ≡ log id n.db ++ new
  stored_log [] n from saved = rw append-nil (unfold store_batch in refl)
  stored_log (m ∷ ms) n from saved =
      ap (log id) (store_batch_ok decode id (m ∷ ms) n (λ e. cc) saved).0
      ∙ log-append id n.db (m ∷ ms)
      ∙ ap (λ (l : List DbMessage). log id n.db ++ l) (retain-All (is_from id) (m ∷ ms) from)

  -- A batch that was inserted into a log, or refused, changes nothing when it comes again, as long
  -- as the log and the batch together are shorter than 2 ^ 64.
  pub insert_message_batch_idem :
      (ms : List DbMessage) (n : Node)
      → IsLog id n
      → length (log id n.db) + length ms < 2 ^ 64
      → let once = (insert_message_batch decode id ms n).1 in
        (insert_message_batch decode id ms once).1 ≡ once
  insert_message_batch_idem ms n h few = elim (insert_message_batch_cases decode id ms n) [
    | inl same ↦ ap (λ (x : Node). (insert_message_batch decode id ms x).1) same
    | inr (passed, st) ↦
        let c = cur_counter id n in
        let new = newer c ms in
        let after = (insert_message_batch decode id ms n).1 in
        let fits : c + length new < 2 ^ 64 =
          omega (arith, h.counted, length-retain-le (λ m. ltb c m.counter) ms) in
        let counter : cur_counter id after ≡ c + length new =
          ground (arith, cur_counter-Stored id id new n after st, eq_iff id id) in
        let numbered = (check_batch_ok id c 0 new passed (omega arith)).0 in
        no_news ms after (
          rw counter (
            newer-newer c (c + length new) ms (omega arith)
            ∙ none_newer c (c + length new) new (ground (arith, numbered)) (omega arith)))
  ]

  -- A batch of the peer's messages with consecutive counters that goes on from the log, or
  -- overlaps its end, is appended without the overlap, if the database answers, the ids of the
  -- table and of the new messages are all different, and the log and the batch together are
  -- shorter than 2 ^ 64.
  pub insert_message_batch_accepts :
      (ms : List DbMessage) (k : ℕ) (n : Node)
      → IsLog id n
      → n.db.online ≡ true
      → unique_ids n.db.rows ≡ true
      → Numbered k ms
      → k ≤ length (log id n.db) + 1
      → All (λ m. is_from id m ≡ true) ms
      → length (log id n.db) + length ms < 2 ^ 64
      → let new = drop (length (log id n.db) + 1 - k) ms in
        unique_ids (n.db.rows ++ new) ≡ true
        → log id (insert_message_batch decode id ms n).1.db ≡ log id n.db ++ new
  insert_message_batch_accepts ms k n h up unique numbered starts from few fresh =
      let c = cur_counter id n in
      let start : length (log id n.db) + 1 - k ≡ suc c - k = omega (arith, h.counted) in
      let new = drop (suc c - k) ms in
      let chosen = retain_above-Numbered c k ms numbered in
      let first : k + (suc c - k) ≡ suc (c + 0) = omega (arith, h.counted) in
      let passed : check_batch id c 0 new ≡ ok tt =
        check_batch_numbered id c 0 new (rw first at (Numbered-drop (suc c - k) k ms numbered))
          (All-drop (λ m. is_from id m ≡ true) (suc c - k) ms from)
          (omega (arith, h.counted, length-drop (suc c - k) ms)) in
      let saved : save_many n.db new ≡ ok (record n.db { rows = n.db.rows ++ new }) =
        rw (save_many_lem n.db new up unique) (rw (rw start at fresh)) in
      rw start (
        ap (λ (x : Node). log id x.db) (insert_passed ms n (rw chosen passed))
        ∙ rw chosen
            (stored_log new n (All-drop (λ m. is_from id m ≡ true) (suc c - k) ms from) saved))

  -- A batch for one peer leaves the log and the counter of every other as they are, as long as its
  -- own counter does not overflow.
  pub insert_message_batch_other :
      (ms : List DbMessage) (n : Node) (other : String)
      → id ≢ other
      → cur_counter id n + length ms < 2 ^ 64
      → let after = (insert_message_batch decode id ms n).1 in
        (log other after.db ≡ log other n.db) × (cur_counter other after ≡ cur_counter other n)
  insert_message_batch_other ms n other ne few = elim (insert_message_batch_cases decode id ms n) [
    | inl same ↦ rw same (refl, refl)
    | inr (passed, st) ↦
        let new = newer (cur_counter id n) ms in
        let after = (insert_message_batch decode id ms n).1 in
        let shorter = length-retain-le (λ m. ltb (cur_counter id n) m.counter) ms in
        let from_id = (check_batch_ok id _ 0 new passed (omega (arith, shorter))).1 in
        (
          log-Stored id other new n after st
              ∙ ap (λ (l : List DbMessage). log other n.db ++ l)
                  (none_from_other id other new ne from_id)
              ∙ append-nil (log other n.db),
          ground (arith, cur_counter-Stored id other new n after st, eq_iff id other),
        )
  ]
