-- ===== src/Network/Own.antt =====
-- A node adds a message of its own: what is stored, and what is put on the queue.
use paper_plane.Prelude.{
  refl, ℕ, ◌+◌, ◌^◌, ◌<◌, ◌≡◌, ◌≢◌, ap, ◌∙◌, String, true, false, Option, List, [], ◌∷◌, ◌++◌,
  arith, append-nil, any, length, length-append, retain, eq_iff, inr,
}
use paper_plane.Prelude.Word.{add64}
use paper_plane.Prelude.Exec.{ok}
use paper_plane.Models.{DbMessage, MessagePayload}
use paper_plane.Messages.{MessageDatabase, has_id, is_from, save}
use paper_plane.Messages.Log.{log, Numbered, Numbered-append}
use paper_plane.Messages.Insert.{log-append}
use paper_plane.Messages.Prefix.{Prefix, Prefix-refl, Prefix-append}
use paper_plane.Node.{Node, cur_counter, set_counter, cur_counter_congr, cur_counter-set_counter}
use paper_plane.Repository.{publish, save_message, update_counter}
use paper_plane.Repository.Frame.{publish-SameStore}
use paper_plane.Repository.Log.{IsLog}
use paper_plane.Repository.Queued.{Queued, publish-Queued}
use paper_plane.Repository.Batch.{none_from_other}
use paper_plane.Repository.Save.Cases.{
  numbered, own_run, counted_node, update_counter_db, update_counter_repositories,
}
use paper_plane.Manager.Recover.{HasLog, HasLog-congr}
use paper_plane.Manager.{get_or_create_repository, add_own_message}
use paper_plane.Manager.Clock.{ticked, ordered, get_or_create_frame, add_own_state}
use paper_plane.Network.Fits.{Logs, Fits, Extends, Wireable}
use paper_plane.Network.Deliver.{
  each_author, HasLog-other, Received, Received-trans, same-Received, open-Received,
}

-- The row is the last of the table, it is counted, and it is what tasks are queued for.
pub record Added (id : String) (m : DbMessage) (n n' : Node) : Type 0 where
  pub db : n'.db ≡ record n.db { rows = n.db.rows ++ m ∷ [] }
  pub repositories : n'.repositories ≡ (set_counter id (add64 (cur_counter id n) 1) n).repositories
  pub queue : Queued (m ∷ []) n n'

takes_fresh :
    (db : MessageDatabase) (m : DbMessage)
    → db.online ≡ true
    → any (has_id m.id) db.rows ≡ false
    → save db m ≡ ok (record db { rows = db.rows ++ m ∷ [] })
unfolding save
takes_fresh db m online fresh = ground arith

module _ (decode : List ℕ → Option MessagePayload) (id : String) (m : DbMessage) (n : Node) where
  counted_queue :
      (db : MessageDatabase)
      → ((counted_node decode id m db n).queue ≡ n.queue)
        × ((counted_node decode id m db n).current_peers ≡ n.current_peers)
  unfolding update_counter set_counter
  counted_queue db = ground arith

  pub save_message-Added :
      m.peer_id ≡ id
      → m.counter ≡ 0
      → n.db.online ≡ true
      → any (has_id m.id) n.db.rows ≡ false
      → Added id (numbered decode id m n) n (save_message decode id m n).1
  save_message-Added from own online fresh =
      let m' = numbered decode id m n in
      let db = record n.db { rows = n.db.rows ++ m' ∷ [] } in
      let k = counted_node decode id m db n in
      let run : save_message decode id m n ≡ publish decode m' k =
        own_run decode id m n (ground (arith, eq_iff m.peer_id id)) own
          (takes_fresh n.db m' online fresh) in
      let same = publish-SameStore decode m' k in
      let (queue, peers) = counted_queue db in
      rw run (record {
        db = same.db ∙ update_counter_db decode id m db n;
        repositories = same.repositories ∙ update_counter_repositories decode id m db n;
        queue = rw (queue, peers) at (publish-Queued decode m' k);
      })

module _ (id : String) (m : DbMessage) (n n' : Node) (added : Added id m n n') where
  grown : (other : String) → log other n'.db ≡ log other n.db ++ retain (is_from other) (m ∷ [])
  grown other = ap (log other) added.db ∙ log-append other n.db (m ∷ [])

  module _ (author : m.peer_id ≡ id) where
    from_id : is_from id m ≡ true
    from_id = ground (arith, eq_iff m.peer_id id)

    pub Added_own : log id n'.db ≡ log id n.db ++ m ∷ []
    Added_own = grown id ∙ ap (λ (l : List DbMessage). log id n.db ++ l) (ground (arith, from_id))

    pub Added_other : (other : String) → id ≢ other → log other n'.db ≡ log other n.db
    Added_other other ne =
        grown other
        ∙ ap (λ (l : List DbMessage). log other n.db ++ l)
            (none_from_other id other (m ∷ []) ne (from_id, tt))
        ∙ append-nil (log other n.db)

    pub Added-Extends : Extends n n'
    Added-Extends =
        each_author (λ a. Prefix (log a n.db) (log a n'.db)) id
          (rw Added_own (Prefix-append (log id n.db) (m ∷ [])))
          (λ other ne. rw (Added_other other ne) (Prefix-refl (log other n.db)))

    -- With the next number the row goes on in the log.
    pub Added-HasLog :
        m.counter ≡ add64 (cur_counter id n) 1
        → length (log id n.db) + 1 < 2 ^ 31
        → IsLog id n
        → ((other : String) → HasLog other n)
        → (other : String) → HasLog other n'
    Added-HasLog next few is_log logs =
        each_author (λ a. HasLog a n') id
          (record {
            numbered = numbers;
            agrees = inr (record { numbered = numbers; counted = counts });
          })
          (λ other ne.
            HasLog-other id other _ n n' ne added.repositories (Added_other other ne) (logs other))
      where
        numbers : Numbered 1 (log id n'.db)
        numbers = rw Added_own (
            Numbered-append 1 (log id n.db) (m ∷ []) is_log.numbered
              (ground (arith, is_log.counted, next, few)))

        counts : cur_counter id n' ≡ length (log id n'.db)
        counts = rw Added_own (
            cur_counter_congr id n' (set_counter id (add64 (cur_counter id n) 1) n)
              added.repositories
            ∙ ground (
              arith,
              is_log.counted,
              few,
              cur_counter-set_counter id id (add64 (cur_counter id n) 1) n,
              eq_iff id id,
              length-append (log id n.db) (m ∷ []),
            ))

ticked-Received : (t : Logs) (n : Node) → Fits t n → Received t n (ticked n)
ticked-Received t n fits =
    same-Received t n (ticked n) fits refl refl
      (λ id. HasLog-congr id n (ticked n) refl refl (fits.logs id))

-- What adding an own message comes down to: the node with the repository open, and the message with
-- its number.
pub record OwnAdded (t : Logs) (i : String) (n n' : Node) : Type 0 where
  pub open_node : Node
  pub message : DbMessage
  pub received : Received t n open_node
  pub same_db : open_node.db ≡ n.db
  pub is_log : IsLog i open_node
  pub author : message.peer_id ≡ i
  pub number : message.counter ≡ add64 (cur_counter i open_node) 1
  pub added : Added i message open_node n'

pub add_own_message-OwnAdded :
    (decode : List ℕ → Option MessagePayload) (null : ℕ) (t : Logs) (m : DbMessage) (n : Node)
    → null ≡ 0
    → Wireable t
    → Fits t n
    → m.counter ≡ 0
    → any (has_id m.id) n.db.rows ≡ false
    → OwnAdded t m.peer_id n (add_own_message null decode m n).1
add_own_message-OwnAdded decode null t m n zeroes wireable fits own fresh =
    let n0 = ticked n in
    let n1 = (get_or_create_repository null m.peer_id n0).1 in
    let m1 = ordered m n in
    let ticks = ticked-Received t n fits in
    let (opened, is_log) = open-Received t wireable null zeroes m.peer_id n0 ticks.0 in
    let db = (get_or_create_frame null m.peer_id n0).0 in
    rw (add_own_state decode null m n) (record {
      open_node = n1;
      message = numbered decode m.peer_id m1 n1;
      received = Received-trans t n n0 n1 ticks opened;
      same_db = db;
      is_log = is_log;
      author = refl;
      number = refl;
      added =
          save_message-Added decode m.peer_id m1 n1 refl own
            (ap (λ (d : MessageDatabase). d.online) db ∙ fits.online)
            (ap (λ (d : MessageDatabase). any (has_id m.id) d.rows) db ∙ fresh);
    })
