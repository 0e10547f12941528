-- ===== src/Messages/Query.antt =====
-- `get_after` and `get_highest_counter` of message_database.rs on the log of a peer.
use paper_plane.Prelude.{
  ℕ, suc, ◌+◌, ◌-◌, ◌^◌, ◌≤◌, ◌<◌, ◌≡◌, ◌≢◌, refl, sym, ap, ◌∙◌, String, true, false, any, All, ◌⊎◌,
  ◌&&◌, List, [], ◌∷◌, arith, retain, retain-retain, drop, length, length-drop,
}
use paper_plane.Prelude.Exec.{ok, err, panicked}
use paper_plane.Prelude.Word.{le_i64}
use paper_plane.Models.{DbMessage}
use paper_plane.Messages.{
  MessageDatabase, is_from, place, order_by_counter, get_after, unreadable, read_rows, max_counter,
  get_highest_counter,
}
use paper_plane.Messages.Log.{log, Numbered, Numbered-drop, retain_from-Numbered}

-- What is numbered is in order already.
order_by_counter-Numbered :
    (k : ℕ) (xs : List DbMessage)
    → Numbered k xs
    → k + length xs ≤ 2 ^ 63
    → order_by_counter xs ≡ xs
unfolding order_by_counter place
order_by_counter-Numbered k [] h le = refl
order_by_counter-Numbered k (x ∷ []) h le = refl
order_by_counter-Numbered k (x ∷ y ∷ ys) h le =
    ground (arith, order_by_counter-Numbered (suc k) (y ∷ ys) h.1)

-- If the database answers and the log of a peer, shorter than 2 ^ 63, is numbered from 1 without a
-- gap, `get_after` of a counter below 2 ^ 63 returns the log from the message with this counter
-- on, this message included, in the order of the counters, if every order can be read.
pub get_after-log :
    (db : MessageDatabase) (peer_id : String) (c : ℕ)
    → db.online ≡ true
    → Numbered 1 (log peer_id db)
    → length (log peer_id db) < 2 ^ 63
    → c < 2 ^ 63
    → get_after db peer_id c ≡ read_rows (drop (c - 1) (log peer_id db))
unfolding get_after log
get_after-log db peer_id c up h few lt =
    rw up (ap read_rows (ap order_by_counter selected ∙ ordered))
  where
    selected :
        retain (λ r. is_from peer_id r && le_i64 c r.counter) db.rows
        ≡ drop (c - 1) (log peer_id db)
    selected =
        unfold log in
        sym (retain-retain (is_from peer_id) (λ r. le_i64 c r.counter) db.rows)
        ∙ retain_from-Numbered c 1 (log peer_id db) h (omega arith) lt

    ordered : order_by_counter (drop (c - 1) (log peer_id db)) ≡ drop (c - 1) (log peer_id db)
    ordered =
        order_by_counter-Numbered (1 + (c - 1)) _ (Numbered-drop (c - 1) 1 _ h)
          (omega (arith, length-drop (c - 1) (log peer_id db)))

-- The orders can be read as a u64.
abbrev pub Orders : List DbMessage → Type 0
Orders ms = All (λ m. m.order < 2 ^ 63) ms

any-unreadable :
    (ms : List DbMessage) → All (λ m. m.counter < 2 ^ 31) ms → Orders ms → any unreadable ms ≡ false
any-unreadable [] low small = refl
any-unreadable (m ∷ ms) low small = ground (arith, low.0, small.0, any-unreadable ms low.1 small.1)

pub read_rows_ok :
    (ms : List DbMessage) → All (λ m. m.counter < 2 ^ 31) ms → Orders ms → read_rows ms ≡ ok ms
unfolding read_rows
read_rows_ok ms low small = rw (any-unreadable ms low small) refl

pub read_rows_cases : (ms : List DbMessage) → (read_rows ms ≡ ok ms) ⊎ (read_rows ms ≡ err panicked)
unfolding read_rows
read_rows_cases ms = ground arith

max_counter-Numbered :
    (null k : ℕ) (xs : List DbMessage)
    → Numbered k xs
    → k + length xs ≤ 2 ^ 63
    → xs ≢ []
    → max_counter null xs + 1 ≡ k + length xs
unfolding max_counter
max_counter-Numbered null k [] h le ne = absurd (ne refl)
max_counter-Numbered null k (x ∷ []) h le ne = omega arith
max_counter-Numbered null k (x ∷ y ∷ ys) h le ne =
    ground (arith, max_counter-Numbered null (suc k) (y ∷ ys) h.1)

-- If the database answers, NULL is read as 0, and the log of a peer, shorter than 2 ^ 63, is
-- numbered from 1 without a gap, its highest counter is its length.
pub get_highest_counter-log :
    (null : ℕ) (db : MessageDatabase) (peer_id : String)
    → db.online ≡ true
    → Numbered 1 (log peer_id db)
    → length (log peer_id db) < 2 ^ 63
    → null ≡ 0
    → get_highest_counter null db peer_id ≡ ok (length (log peer_id db))
unfolding get_highest_counter log
get_highest_counter-log null db peer_id up h few zeroes = rw up (ap ok (top (log peer_id db) h few))
  where
    top :
        (xs : List DbMessage) → Numbered 1 xs → length xs < 2 ^ 63 → max_counter null xs ≡ length xs
    top [] n lt = unfold max_counter in zeroes
    top (x ∷ xs) n lt =
        omega (arith, max_counter-Numbered null 1 (x ∷ xs) n (omega arith) (λ e. cc))
