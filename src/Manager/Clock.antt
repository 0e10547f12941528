-- ===== src/Manager/Clock.antt =====
-- The order counter is a logical clock: it is at least the order of every message in the table.
use paper_plane.Prelude.{
  ℕ, ◌+◌, ◌^◌, ◌≤◌, ◌<◌, ◌≡◌, ap, ◌∙◌, String, true, Option, List, [], ◌∷◌, arith, inl, inr, All,
  All-append,
}
use paper_plane.Prelude.Word.{add64}
use paper_plane.Prelude.Exec.{ok}
use paper_plane.Models.{DbMessage, MessagePayload}
use paper_plane.Messages.{MessageDatabase}
use paper_plane.Messages.Insert.{save_many_ok}
use paper_plane.Node.{Node, cur_counter, set_counter}
use paper_plane.Repository.{
  raise_to, raise_to_all, update_counter, update_counter_many, newer, insert_message_batch,
  save_message,
}
use paper_plane.Repository.Log.{insert_message_batch_cases}
use paper_plane.Repository.Save.Cases.{save_message_cases, RowStored-state}
use paper_plane.Manager.{get_or_create_repository, add_own_message}

abbrev pub NoLater : ℕ → List DbMessage → Type 0
NoLater cnt rows = All (λ r. r.order ≤ cnt) rows

abbrev pub IsClock : Node → Type 0
IsClock n = NoLater n.counter_lock n.db.rows

pub NoLater-mono : (c d : ℕ) (rows : List DbMessage) → c ≤ d → NoLater c rows → NoLater d rows
NoLater-mono c d [] le h = tt
NoLater-mono c d (r ∷ rs) le h = (omega arith, NoLater-mono c d rs le h.1)

raise_to_all_lem :
    (cnt : ℕ) (ms : List DbMessage) → (cnt ≤ raise_to_all cnt ms) × NoLater (raise_to_all cnt ms) ms
unfolding raise_to_all
raise_to_all_lem cnt [] = (omega arith, tt)
raise_to_all_lem cnt (m ∷ ms) = ground (arith, raise_to_all_lem (raise_to cnt m.order) ms)

lock_many :
    (new : List DbMessage) (n : Node)
    → n.manager_alive ≡ true
    → (update_counter_many new n).1.counter_lock ≡ raise_to_all n.counter_lock new
unfolding update_counter_many
lock_many new n alive = ground arith

lock_one :
    (m : DbMessage) (n : Node)
    → n.manager_alive ≡ true
    → (update_counter m n).1.counter_lock ≡ raise_to n.counter_lock m.order
unfolding update_counter
lock_one m n alive = ground arith

module _ (decode : List ℕ → Option MessagePayload) (id : String) where
  -- While the manager is alive, a batch keeps the order counter at least as high as the order of
  -- every row.
  pub insert_message_batch-IsClock :
      (ms : List DbMessage) (n : Node)
      → n.manager_alive ≡ true
      → IsClock n
      → IsClock (insert_message_batch decode id ms n).1
  insert_message_batch-IsClock ms n alive h = elim (insert_message_batch_cases decode id ms n) [
    | inl same ↦ rw same h
    | inr (passed, (saved, counter, clock)) ↦
        let new = newer (cur_counter id n) ms in
        let raised = raise_to_all_lem n.counter_lock new in
        let rows = ap (λ (d : MessageDatabase). d.rows) (save_many_ok n.db new saved) in
        let lock : (insert_message_batch decode id ms n).1.counter_lock
            ≡ raise_to_all n.counter_lock new =
          clock ∙ lock_many new n alive in
        rw (rows, lock)
          (All-append (λ r. r.order ≤ raise_to_all n.counter_lock new) n.db.rows new
            (NoLater-mono n.counter_lock _ n.db.rows raised.0 h) raised.1)
  ]

  -- While the manager is alive, a message that is saved, or refused, keeps the order counter at
  -- least as high as the order of every row.
  pub save_message-IsClock :
      (m : DbMessage) (n : Node)
      → n.manager_alive ≡ true
      → IsClock n
      → IsClock (save_message decode id m n).1
  save_message-IsClock m n alive h = elim (save_message_cases decode id m n) [
    | inl same ↦ rw same h
    | inr (inl (own, failed, raised)) ↦ rw raised (unfold set_counter in h)
    | inr (inr stored) ↦
        let (_, _, clock, rows) = RowStored-state decode id m n stored in
        let lock : (save_message decode id m n).1.counter_lock ≡ raise_to n.counter_lock m.order =
          clock ∙ lock_one (record m { counter = add64 (cur_counter id n) 1 }) n alive in
        rw (rows, lock)
          (All-append (λ r. r.order ≤ raise_to n.counter_lock m.order) n.db.rows
            (record m { counter = add64 (cur_counter id n) 1 } ∷ [])
            (NoLater-mono n.counter_lock _ n.db.rows (ground arith) h) (ground arith))
  ]

-- The node with its order counter raised, and the message with that order.
abbrev pub ticked : Node → Node
ticked n = record n { counter_lock = add64 n.counter_lock 1 }

abbrev pub ordered : DbMessage → Node → DbMessage
ordered m n = record m { order = add64 n.counter_lock 1 }

pub get_or_create_frame :
    (null : ℕ) (id : String) (n : Node)
    → let n' = (get_or_create_repository null id n).1 in
      (n'.db ≡ n.db) × (n'.counter_lock ≡ n.counter_lock) × (n'.manager_alive ≡ n.manager_alive)
unfolding get_or_create_repository set_counter
get_or_create_frame null id n = ground arith

pub add_own_state :
    (decode : List ℕ → Option MessagePayload) (null : ℕ) (m : DbMessage) (n : Node)
    → (add_own_message null decode m n).1
      ≡ (save_message decode m.peer_id
          (ordered m n)
          (get_or_create_repository null m.peer_id (ticked n)).1).1
unfolding add_own_message
add_own_state decode null m n = ground arith

add_own_result :
    (decode : List ℕ → Option MessagePayload) (null : ℕ) (m : DbMessage) (n : Node) {m' : DbMessage}
    → (add_own_message null decode m n).0 ≡ ok m'
    → m' ≡ ordered m n
unfolding add_own_message
add_own_result decode null m n e = ground arith

NoLater→Before :
    (c d : ℕ) (rows : List DbMessage) → c < d → NoLater c rows → All (λ r. r.order < d) rows
NoLater→Before c d [] lt h = tt
NoLater→Before c d (r ∷ rs) lt h = (omega arith, NoLater→Before c d rs lt h.1)

-- While the manager is alive, its order counter is at least the order of every row, and one more
-- does not overflow, an own message that is added without an error gets an order above that of
-- every row, one more than the counter was; the counter is again at least every order afterwards.
pub add_own_message_later :
    (decode : List ℕ → Option MessagePayload) (null : ℕ) (m m' : DbMessage) (n : Node)
    → n.manager_alive ≡ true
    → IsClock n
    → n.counter_lock + 1 < 2 ^ 64
    → (add_own_message null decode m n).0 ≡ ok m'
    → All (λ r. r.order < m'.order) n.db.rows
      × (m'.order ≡ n.counter_lock + 1)
      × IsClock (add_own_message null decode m n).1
add_own_message_later decode null m m' n alive h few done =
    let made : m' ≡ ordered m n = add_own_result decode null m n done in
    let (db, lock, manager) = get_or_create_frame null m.peer_id (ticked n) in
    let reached : IsClock (get_or_create_repository null m.peer_id (ticked n)).1 =
      rw (db, lock) (NoLater-mono n.counter_lock _ n.db.rows (omega arith) h) in
    (
      rw made (NoLater→Before n.counter_lock _ n.db.rows (omega arith) h),
      rw made (omega arith),
      rw (add_own_state decode null m n)
          (save_message-IsClock decode m.peer_id (ordered m n) _ (manager ∙ alive) reached),
    )
