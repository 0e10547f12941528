-- ===== src/Manager/Running.antt =====
-- An own message keeps what the order counter is relied on for, whatever comes of it.
use paper_plane.Prelude.{
  ℕ, ◌+◌, ◌^◌, ◌≤◌, ◌<◌, ◌≡◌, ap, ◌∙◌, String, true, Option, List, arith, inl, inr,
}
use paper_plane.Prelude.Exec.{Result}
use paper_plane.Models.{DbMessage, MessagePayload}
use paper_plane.Messages.{MessageDatabase}
use paper_plane.Node.{Node, set_counter}
use paper_plane.Repository.Frame.{publish-SameStore}
use paper_plane.Repository.{update_counter, save_message}
use paper_plane.Repository.Save.Cases.{
  save_message_cases, RowStored, RowStored-state, counted_node, numbered,
}
use paper_plane.Manager.{get_or_create_repository, add_own_message}
use paper_plane.Manager.Clock.{
  IsClock, NoLater-mono, save_message-IsClock, ticked, ordered, get_or_create_frame, add_own_state,
}

-- What a call leaves, when the counter was `c`.
abbrev pub Runs : ℕ → Node → Type 0
Runs c n = IsClock n × (n.manager_alive ≡ true) × (n.counter_lock ≤ c)

module _ (decode : List ℕ → Option MessagePayload) where
  counted-alive :
      (id : String) (m : DbMessage) (db : MessageDatabase) (n : Node)
      → (counted_node decode id m db n).manager_alive ≡ n.manager_alive
  unfolding update_counter set_counter
  counted-alive id m db n = ground arith

  stored-alive :
      (id : String) (m : DbMessage) (n : Node)
      → RowStored decode id m n
      → (save_message decode id m n).1.manager_alive ≡ n.manager_alive
  stored-alive id m n (from, (db, saved, run)) =
      ap (λ (r : Result (Unit {0}) × Node). r.1.manager_alive) run
      ∙ (publish-SameStore decode (numbered decode id m n)
          (counted_node decode id m db n)).manager_alive
      ∙ counted-alive id m db n

  stored_lock :
      (id : String) (m : DbMessage) (n : Node)
      → n.manager_alive ≡ true
      → m.order ≤ n.counter_lock
      → RowStored decode id m n
      → (save_message decode id m n).1.counter_lock ≤ n.counter_lock
  unfolding update_counter
  stored_lock id m n alive small stored =
      let (_, _, clock, _) = RowStored-state decode id m n stored in rw clock (ground arith)

  save_message-alive :
      (id : String) (m : DbMessage) (n : Node)
      → (save_message decode id m n).1.manager_alive ≡ n.manager_alive
  unfolding set_counter
  save_message-alive id m n = elim (save_message_cases decode id m n) [
    | inl same ↦ ap (λ (k : Node). k.manager_alive) same
    | inr (inl (own, failed, raised)) ↦ ap (λ (k : Node). k.manager_alive) raised
    | inr (inr stored) ↦ stored-alive id m n stored
  ]

  save_message_lock :
      (id : String) (m : DbMessage) (n : Node)
      → n.manager_alive ≡ true
      → m.order ≤ n.counter_lock
      → (save_message decode id m n).1.counter_lock ≤ n.counter_lock
  unfolding set_counter
  save_message_lock id m n alive small = elim (save_message_cases decode id m n) [
    | inl same ↦ rw (ap (λ (k : Node). k.counter_lock) same) (omega arith)
    | inr (inl (own, failed, raised)) ↦ rw (ap (λ (k : Node). k.counter_lock) raised) (omega arith)
    | inr (inr stored) ↦ stored_lock id m n alive small stored
  ]

  save_message-Runs :
      (id : String) (m : DbMessage) (n : Node)
      → n.manager_alive ≡ true
      → IsClock n
      → m.order ≤ n.counter_lock
      → Runs n.counter_lock (save_message decode id m n).1
  save_message-Runs id m n alive h small = (
    save_message-IsClock decode id m n alive h,
    save_message-alive id m n ∙ alive,
    save_message_lock id m n alive small,
  )

  -- While the manager is alive and one more does not overflow the counter, an own message, added or
  -- not, leaves the manager alive and the order counter at least as high as every order, and raises
  -- it by one at most.
  pub add_own_message-Runs :
      (null : ℕ) (m : DbMessage) (n : Node)
      → n.manager_alive ≡ true
      → IsClock n
      → n.counter_lock + 1 < 2 ^ 64
      → Runs (n.counter_lock + 1) (add_own_message null decode m n).1
  add_own_message-Runs null m n alive h few =
      let (db, lock, manager) = get_or_create_frame null m.peer_id (ticked n) in
      let k = (get_or_create_repository null m.peer_id (ticked n)).1 in
      let reached : IsClock k =
        rw (db, lock) (NoLater-mono n.counter_lock _ n.db.rows (omega arith) h) in
      let (clock, lives, low) =
        save_message-Runs m.peer_id (ordered m n) k (manager ∙ alive) reached
          (rw lock (omega arith)) in
      rw (add_own_state decode null m n) (clock, lives, omega (arith, low, lock))
