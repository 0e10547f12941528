-- ===== src/Repository/Save/Published.antt =====
-- An own message that is saved without an error was indexed.
use paper_plane.Prelude.{ℕ, ◌≡◌, sym, ap, ◌∙◌, String, true, Option, List, arith, inl, inr}
use paper_plane.Prelude.Exec.{Result, ok, Result-cases}
use paper_plane.Models.{DbMessage, MessagePayload}
use paper_plane.Messages.{MessageDatabase, is_from, save}
use paper_plane.Index.{index_message}
use paper_plane.Node.{Node, set_counter}
use paper_plane.Repository.{
  update_counter, publish, on_indexer, broadcast, save_message, message_broadcast,
}
use paper_plane.Repository.Save.Cases.{numbered, counted_node, own_failed, own_run}

module _ (decode : List ℕ → Option MessagePayload) (id : String) where
  counted_node_indexer :
      (m : DbMessage) (db : MessageDatabase) (n : Node)
      → (counted_node decode id m db n).indexer ≡ n.indexer
  unfolding update_counter set_counter
  counted_node_indexer m db n = ground arith

  publish_ok :
      (m : DbMessage) (n : Node)
      → (publish decode m n).0 ≡ ok tt
      → index_message decode m n.indexer ≡ (ok tt, (publish decode m n).1.indexer)
  unfolding publish on_indexer broadcast message_broadcast
  publish_ok m n e = ground arith

  pub save_message_indexes :
      (m : DbMessage) (n : Node)
      → is_from id m ≡ true
      → m.counter ≡ 0
      → (save_message decode id m n).0 ≡ ok tt
      → index_message decode (numbered decode id m n) n.indexer
        ≡ (ok tt, (save_message decode id m n).1.indexer)
  save_message_indexes m n from own e = elim (Result-cases (save n.db (numbered decode id m n))) [
    | inr (x, failed) ↦ absurd (ground (arith, (own_failed decode id m n from own failed).1))
    | inl (db, saved) ↦
        let run = own_run decode id m n from own saved in
        let same = counted_node_indexer m db n in
        let indexed =
          publish_ok (numbered decode id m n) (counted_node decode id m db n)
            (sym (ap (λ (r : Result (Unit {0}) × Node). r.0) run) ∙ e) in
        ap (index_message decode (numbered decode id m n)) (sym same)
        ∙ indexed
        ∙ ap (λ (r : Result (Unit {0}) × Node). (ok tt, r.1.indexer)) (sym run)
  ]
