-- ===== src/Conn/Read.antt =====
-- The read side of conn.rs. The inner stream gives the chunks that have arrived, one a read, and
-- then either the end of the stream or nothing yet.
pub mod Total
pub mod Frames
use paper_plane.Prelude.{
  ℕ, zero, suc, ◌+◌, Bool, true, false, not, ◌&&◌, Option, none, some, List, [], ◌∷◌, ◌++◌, length,
  take, drop, ltb, ◌==◌, is_empty, if◌then◌else◌,
}
use paper_plane.Prelude.Word.{from_be16}
use paper_plane.Prelude.Exec.{Result, ok, err, wrong_frame, unexpected_eof, undecodable}
use paper_plane.Conn.{Cipher, Poll, pending, ready, nonce_size}

pub data ReadState : Type 0 where
  reading_length : ReadState
  reading_frame : (frame_len : ℕ) → ReadState

pub record Reader : Type 0 where
  pub read_buffer : List ℕ
  pub decrypted_buffer : List ℕ
  pub read_state : ReadState
  pub arriving : List (List ℕ)
  pub ended : Bool

-- How many bytes came.
unfoldable pub read_more : Reader → Poll ℕ × Reader
read_more s = elim s.arriving [
  | [] ↦ if s.ended then (ready 0, s) else (pending, s)
  | chunk ∷ later ↦
      (ready (length chunk), record s { read_buffer = s.read_buffer ++ chunk; arriving = later })
]

-- One turn of the loop of `poll_read`: a return from it, or the next turn.
pub data Turn : Type 0 where
  return_with : Poll (Result (List ℕ)) → Reader → Turn
  again : Reader → Turn

abbrev after_length : Poll ℕ × Reader → Turn
after_length (pending, s) = return_with pending s
after_length (ready n, s) =
    if n == 0 && is_empty s.read_buffer then return_with (ready (ok [])) s else again s

abbrev after_frame : ℕ → Poll ℕ × Reader → Turn
after_frame frame_len (pending, s) = return_with pending s
after_frame frame_len (ready n, s) =
    if n == 0 && ltb (length s.read_buffer) frame_len
    then return_with (ready (err unexpected_eof)) s
    else again s

abbrev take_length : List ℕ → Reader → Turn
take_length (a ∷ b ∷ rest) s =
    if ltb (from_be16 a b) nonce_size
    then return_with (ready (err wrong_frame)) (record s { read_buffer = rest })
    else again (record s { read_buffer = rest; read_state = reading_frame (from_be16 a b) })
take_length _ s = after_length (read_more s)

abbrev take_frame : Cipher → ℕ → Reader → Turn
take_frame c frame_len s =
    let data_bytes = take frame_len s.read_buffer in
    let rest = drop frame_len s.read_buffer in
    elim (c.decrypt (take nonce_size data_bytes) (drop nonce_size data_bytes)) [
      | none ↦ return_with (ready (err undecodable)) (record s { read_buffer = rest })
      | some plaintext ↦ again (record s {
        read_buffer = rest;
        decrypted_buffer = plaintext;
        read_state = reading_length;
      })
    ]

-- `room` is what the caller's buffer can take.
unfoldable pub turn : Cipher → ℕ → Reader → Turn
unfolding read_more
turn c room s =
    if not (is_empty s.decrypted_buffer)
    then return_with (ready (ok (take room s.decrypted_buffer)))
        (record s { decrypted_buffer = drop room s.decrypted_buffer })
    else elim s.read_state [
      | reading_length ↦ take_length s.read_buffer s
      | reading_frame frame_len ↦
          if ltb (length s.read_buffer) frame_len
          then after_frame frame_len (read_more s)
          else take_frame c frame_len s
    ]

-- At most `fuel` turns; `none` if the loop is still running then.
unfoldable pub poll_read : Cipher → ℕ → ℕ → Reader → Option (Poll (Result (List ℕ)) × Reader)
unfolding turn
poll_read c zero room s = none
poll_read c (suc fuel) room s = elim (turn c room s) [
  | return_with r s' ↦ some (r, s')
  | again s' ↦ poll_read c fuel room s'
]
