-- ===== src/Messages/Insert.antt =====
-- The primary key of the table `messages`: which inserts succeed, and what they leave.
use paper_plane.Prelude.{
  ◌≡◌, refl, ◌∙◌, inl, inr, String, Bool, true, false, not, ◌&&◌, List, [], ◌∷◌, ◌++◌, arith,
  eq_iff, any, any-append, append-nil, append_assoc, Bool-cases, if◌then◌else◌, retain,
  retain-append,
}
use paper_plane.Prelude.Exec.{ok, err, duplicate_id}
use paper_plane.Models.{DbMessage}
use paper_plane.Messages.{
  MessageDatabase, has_id, is_from, insert_row, insert_rows, save, save_many,
}
use paper_plane.Messages.Log.{log}

-- No two rows have one id.
abbrev pub unique_ids : List DbMessage → Bool
unique_ids [] = true
unique_ids (r ∷ rs) = not (any (has_id r.id) rs) && unique_ids rs

unique_ids_snoc :
    (rows : List DbMessage) (m : DbMessage)
    → unique_ids (rows ++ m ∷ []) ≡ (unique_ids rows && not (any (has_id m.id) rows))
unique_ids_snoc [] m = refl
unique_ids_snoc (r ∷ rs) m = ground (
  arith,
  unique_ids_snoc rs m,
  any-append (has_id r.id) rs (m ∷ []),
  eq_iff r.id m.id,
  eq_iff m.id r.id,
)

unique_ids_repeated :
    (rows ms : List DbMessage) (m : DbMessage)
    → any (has_id m.id) rows ≡ true
    → unique_ids (rows ++ m ∷ ms) ≡ false
unique_ids_repeated [] ms m h = cc
unique_ids_repeated (r ∷ rs) ms m h = ground (
  arith,
  unique_ids_repeated rs ms m,
  any-append (has_id r.id) rs (m ∷ ms),
  eq_iff r.id m.id,
  eq_iff m.id r.id,
)

insert_rows_lem :
    (rows ms : List DbMessage)
    → unique_ids rows ≡ true
    → insert_rows rows ms ≡ (if unique_ids (rows ++ ms) then ok (rows ++ ms) else err duplicate_id)
unfolding insert_rows insert_row
insert_rows_lem rows [] u = rw (append-nil, u)
insert_rows_lem rows (m ∷ ms) u = elim (Bool-cases (any (has_id m.id) rows)) [
  | inl old ↦ ground (arith, unique_ids_repeated rows ms m old)
  | inr new ↦ ground (
    arith,
    append_assoc rows (m ∷ []) ms,
    unique_ids_snoc rows m,
    insert_rows_lem (rows ++ m ∷ []) ms,
  )
]

-- On a database that answers and whose ids are all different, a batch is stored as a whole, behind
-- the rows of the table, if its ids and theirs are all different; otherwise the result is an
-- error.
pub save_many_lem :
    (db : MessageDatabase) (ms : List DbMessage)
    → db.online ≡ true
    → unique_ids db.rows ≡ true
    → save_many db ms ≡ (
        if unique_ids (db.rows ++ ms)
        then ok (record db { rows = db.rows ++ ms })
        else err duplicate_id)
unfolding save_many
save_many_lem db ms up u = ground (arith, insert_rows_lem db.rows ms u)

insert_rows_ok :
    (rows ms : List DbMessage) {after : List DbMessage}
    → insert_rows rows ms ≡ ok after
    → after ≡ rows ++ ms
unfolding insert_rows insert_row
insert_rows_ok rows [] e = rw append-nil (cc)
insert_rows_ok rows (m ∷ ms) e = elim (Bool-cases (any (has_id m.id) rows)) [
  | inl old ↦ cc (rw (old, insert_rows, insert_row) at e)
  | inr new ↦
      insert_rows_ok (rows ++ m ∷ []) ms (rw (new, insert_rows, insert_row) at e)
      ∙ append_assoc rows (m ∷ []) ms
]

pub save_many_ok :
    (db : MessageDatabase) (ms : List DbMessage) {db' : MessageDatabase}
    → save_many db ms ≡ ok db'
    → db' ≡ record db { rows = db.rows ++ ms }
unfolding save_many
save_many_ok db ms e = grind (arith, insert_rows_ok)

pub save_ok :
    (db : MessageDatabase) (m : DbMessage) {db' : MessageDatabase}
    → save db m ≡ ok db'
    → db' ≡ record db { rows = db.rows ++ m ∷ [] }
unfolding save
save_ok db m e = ground arith

-- What a batch adds to the log of each peer.
pub log-append :
    (peer_id : String) (db : MessageDatabase) (ms : List DbMessage)
    → log peer_id (record db { rows = db.rows ++ ms })
      ≡ log peer_id db ++ retain (is_from peer_id) ms
unfolding log
log-append peer_id db ms = retain-append (is_from peer_id) db.rows ms
