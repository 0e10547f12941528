-- ===== src/Messages.antt =====
-- ChatLib/chat-arch/src/message_database.rs: the table `messages`, its rows in the order in which
-- they were inserted, under the SQL statements of the source. `online` says whether the engine
-- answers at all: a statement on a pool that fails returns an error and changes nothing.
pub mod Log
pub mod Query
pub mod Insert
pub mod Prefix
use paper_plane.Prelude.{
  ℕ, String, Bool, true, false, ◌&&◌, Option, none, some, List, [], ◌∷◌, ◌++◌, map, str_eq, retain,
  any, find, leb, ◌||◌, ◌^◌, contains, is_empty, if◌then◌else◌,
}
use paper_plane.Prelude.Word.{le_i64}
use paper_plane.Prelude.Exec.{Result, ok, err, unavailable, duplicate_id, panicked}
use paper_plane.Models.{DbMessage}

pub record MessageDatabase : Type 0 where
  pub rows : List DbMessage
  pub online : Bool

abbrev pub has_id : String → DbMessage → Bool
has_id id r = str_eq r.id id

abbrev pub is_from : String → DbMessage → Bool
is_from peer_id r = str_eq r.peer_id peer_id

-- INSERT into a table whose `id` is a primary key.
insert_row : List DbMessage → DbMessage → Result (List DbMessage)
insert_row rows m = if any (has_id m.id) rows then err duplicate_id else ok (rows ++ m ∷ [])

-- The loop over the messages of one transaction.
insert_rows : List DbMessage → List DbMessage → Result (List DbMessage)
insert_rows rows [] = ok rows
insert_rows rows (m ∷ ms) = elim (insert_row rows m) [
  | ok rows' ↦ insert_rows rows' ms
  | err e ↦ err e
]

-- The rows of a committed statement; one that failed is rolled back.
abbrev commit : MessageDatabase → Result (List DbMessage) → Result MessageDatabase
commit db (ok rows) = ok (record db { rows = rows })
commit db (err e) = err e

unfoldable pub save : MessageDatabase → DbMessage → Result MessageDatabase
unfolding insert_row
save db m = if db.online then commit db (insert_row db.rows m) else err unavailable

unfoldable pub save_many : MessageDatabase → List DbMessage → Result MessageDatabase
unfolding insert_row insert_rows
save_many db ms = if db.online then commit db (insert_rows db.rows ms) else err unavailable

unfoldable pub get_by_id : MessageDatabase → String → Result (Option DbMessage)
get_by_id db id = if db.online then ok (find (has_id id) db.rows) else err unavailable

-- SELECT MAX(counter), over i64; `null` is what the driver reads from a NULL.
max_counter : ℕ → List DbMessage → ℕ
max_counter null [] = null
max_counter null (r ∷ []) = r.counter
max_counter null (r ∷ s ∷ rs) =
    let best = max_counter null (s ∷ rs) in if le_i64 best r.counter then r.counter else best

unfoldable pub get_highest_counter : ℕ → MessageDatabase → String → Result ℕ
unfolding max_counter
get_highest_counter null db peer_id =
    if db.online then ok (max_counter null (retain (is_from peer_id) db.rows)) else err unavailable

-- ORDER BY counter, as a stable sort.
place : DbMessage → List DbMessage → List DbMessage
place m [] = m ∷ []
place m (r ∷ rs) = if le_i64 m.counter r.counter then m ∷ r ∷ rs else r ∷ place m rs

order_by_counter : List DbMessage → List DbMessage
order_by_counter [] = []
order_by_counter (r ∷ rs) = place r (order_by_counter rs)

-- `row.get` of a column as a u64 panics on a negative one.
abbrev pub unreadable : DbMessage → Bool
unreadable r = leb (2 ^ 63) r.counter || leb (2 ^ 63) r.order

unfoldable pub read_rows : List DbMessage → Result (List DbMessage)
read_rows rows = if any unreadable rows then err panicked else ok rows

unfoldable pub get_after : MessageDatabase → String → ℕ → Result (List DbMessage)
unfolding place order_by_counter read_rows
get_after db peer_id counter =
    if db.online
    then read_rows
        (order_by_counter (retain (λ r. is_from peer_id r && le_i64 counter r.counter) db.rows))
    else err unavailable

-- SELECT DISTINCT peer_id
pub distinct_peers : List DbMessage → List String
distinct_peers [] = []
distinct_peers (r ∷ rs) =
    let rest = distinct_peers rs in if contains rest r.peer_id then rest else r.peer_id ∷ rest

unfoldable pub get_peers : MessageDatabase → Result (List String)
unfolding distinct_peers
get_peers db = if db.online then ok (distinct_peers db.rows) else err unavailable
