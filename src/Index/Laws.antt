-- ===== src/Index/Laws.antt =====
-- What indexing a message does on every branch.
use paper_plane.Prelude.{
  ℕ, ◌≡◌, refl, String, Option, some, List, [], ◌∷◌, ◌++◌, arith, inl, inr, Option-cases,
}
use paper_plane.Prelude.Exec.{ok, err, Error, Result-cases}
use paper_plane.Models.{DbMessage, MessagePayload, IndexedMessage}
use paper_plane.Events.{message}
use paper_plane.Index.{Indexer, indexed, file_path, index_message}
use paper_plane.Index.Table.{row_of}
use paper_plane.Index.Table

module _ (decode : List ℕ → Option MessagePayload) where
  -- `x` is what the payload of `m` says, with the path of its file where that is known.
  abbrev pub Indexes : DbMessage → IndexedMessage → Indexer → Type 0
  Indexes m x s =
      (payload : MessagePayload) × (path : Option String) × (decode m.payload ≡ some payload)
      × (file_path s.file_db payload.file_id ≡ ok path)
      × (x ≡ indexed m payload path)

  -- A message that was indexed has a payload that decodes; its row stands behind the others, the
  -- event of the same message behind the other events, and the files are as before.
  pub index_message_ok :
      (m : DbMessage) (s s' : Indexer)
      → index_message decode m s ≡ (ok tt, s')
      → (x : IndexedMessage) × Indexes m x s
        × (s'.db.rows ≡ s.db.rows ++ row_of x ∷ [])
        × (s'.events ≡ s.events ++ message x ∷ [])
        × (s'.file_db ≡ s.file_db)
  unfolding index_message Table.save
  index_message_ok m s s' e = elim (Option-cases (decode m.payload)) [
    | inl undecodable ↦ absurd (ground arith)
    | inr (payload, decoded) ↦ elim (Result-cases (file_path s.file_db payload.file_id)) [
      | inl (path, known) ↦ (
        indexed m payload path,
        (payload, path, decoded, known, refl),
        ground arith,
        ground arith,
        ground arith,
      )
      | inr (x, failed) ↦ absurd (ground arith)
    ]
  ]

  -- A message that was not indexed has left no row and no event.
  pub index_message_err :
      (m : DbMessage) (s s' : Indexer) (x : Error) → index_message decode m s ≡ (err x, s') → s' ≡ s
  unfolding index_message Table.save
  index_message_err m s s' x e = ground arith
