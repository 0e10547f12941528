-- ===== src/Conn/Read/Total.antt =====
-- When the loop of `poll_read` returns.
use paper_plane.Prelude.{
  ℕ, zero, suc, ◌+◌, ◌≤◌, ◌<◌, ◌≡◌, ◌≢◌, refl, sym, ap, ◌⊎◌, inl, inr, ◌∙◌, Bool, true, false, none,
  List, [], ◌∷◌, arith, length, length-append, length-drop,
}
use paper_plane.Prelude.Exec.{Result}
use paper_plane.Conn.{Cipher, Poll, nonce_size}
use paper_plane.Conn.Read.{
  ReadState, reading_length, reading_frame, Reader, Turn, return_with, again, read_more, turn,
  poll_read,
}

abbrev pub total : List (List ℕ) → ℕ
total [] = 0
total (chunk ∷ later) = length chunk + total later

-- The chunks and the bytes that a reader still has before it.
abbrev pub pending_work : Reader → ℕ
pending_work s = length s.arriving + length s.read_buffer + total s.arriving

-- A frame that is being read is at least a nonce.
abbrev pub AtLeastNonce : ReadState → Type 0
AtLeastNonce reading_length = Unit {0}
AtLeastNonce (reading_frame frame_len) = nonce_size ≤ frame_len

Turn-cases :
    (t : Turn)
    → ((r : Poll (Result (List ℕ))) × (s : Reader) × (t ≡ return_with r s))
      ⊎ ((s : Reader) × (t ≡ again s))
Turn-cases (return_with r s) = inl (r, s, refl)
Turn-cases (again s) = inr (s, refl)

module _ (c : Cipher) (room : ℕ) where
  abbrev open_reader : List ℕ → List ℕ → ReadState → List (List ℕ) → Reader
  open_reader buffer decrypted state arriving = record {
    read_buffer = buffer;
    decrypted_buffer = decrypted;
    read_state = state;
    arriving = arriving;
    ended = false;
  }

  abbrev Less : Reader → Reader → Type 0
  Less s s' = (pending_work s' < pending_work s) × (s'.ended ≡ false) × AtLeastNonce s'.read_state

  turn_lem :
      (buffer decrypted : List ℕ) (state : ReadState) (arriving : List (List ℕ)) (s' : Reader)
      → AtLeastNonce state
      → turn c room (open_reader buffer decrypted state arriving) ≡ again s'
      → Less (open_reader buffer decrypted state arriving) s'
  unfolding turn read_more
  turn_lem buffer (x ∷ xs) state arriving s' big e = absurd (ground arith)
  turn_lem [] [] reading_length [] s' big e = absurd (ground arith)
  turn_lem (a ∷ []) [] reading_length [] s' big e = absurd (ground arith)
  turn_lem [] [] reading_length (chunk ∷ later) s' big e = ground (arith)
  turn_lem (a ∷ []) [] reading_length (chunk ∷ later) s' big e = ground (arith)
  turn_lem (a ∷ b ∷ rest) [] reading_length arriving s' big e = ground (arith)
  turn_lem buffer [] (reading_frame n) [] s' big e = ground (arith, length-drop n buffer)
  turn_lem buffer [] (reading_frame n) (chunk ∷ later) s' big e =
      ground (arith, length-drop n buffer, length-append buffer chunk)

  turn-Less :
      (s s' : Reader)
      → s.ended ≡ false
      → AtLeastNonce s.read_state
      → turn c room s ≡ again s'
      → Less s s'
  turn-Less s s' open_stream big e =
      turn_lem s.read_buffer s.decrypted_buffer s.read_state s.arriving s' big
        (ap (λ (b : Bool). turn c room (record s { ended = b })) (sym open_stream) ∙ e)

  -- While the inner stream has not ended, and a frame that is being read is at least a nonce long,
  -- the loop of a read returns within one turn more than there are chunks to arrive and bytes to
  -- read.
  pub poll_read_returns :
      (fuel : ℕ) (s : Reader)
      → s.ended ≡ false
      → AtLeastNonce s.read_state
      → pending_work s < fuel
      → poll_read c fuel room s ≢ none
  unfolding poll_read
  poll_read_returns zero s open_stream big less e = absurd (omega arith)
  poll_read_returns (suc fuel) s open_stream big less e = elim (Turn-cases (turn c room s)) [
    | inl (r, s', stop) ↦ absurd (ground arith)
    | inr (s', next) ↦
        let (fewer, still_open, still_big) = turn-Less s s' open_stream big next in
        poll_read_returns fuel s' still_open still_big (omega arith) (ground arith)
  ]

  -- The bug: when the inner stream has ended with one byte of a length left over, the loop of a
  -- read does not return, however many turns it takes.
  pub poll_read_livelock :
      (fuel byte : ℕ)
      → poll_read c fuel room (record {
        read_buffer = byte ∷ [];
        decrypted_buffer = [];
        read_state = reading_length;
        arriving = [];
        ended = true;
      })
        ≡ none
  unfolding poll_read turn read_more
  poll_read_livelock zero byte = refl
  poll_read_livelock (suc fuel) byte = poll_read_livelock fuel byte
