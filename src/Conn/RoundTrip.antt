-- ===== src/Conn/RoundTrip.antt =====
-- From the write side of one end of a connection to the read side of the other.
use paper_plane.Prelude.{
  ℕ, ◌+◌, ◌≤◌, ◌<◌, ◌^◌, ◌≡◌, ap, ◌∙◌, Bool, false, some, List, [], ◌++◌, length, All, is_empty,
}
use paper_plane.Prelude.Exec.{ok}
use paper_plane.Conn.{Cipher, ready}
use paper_plane.Conn.Write.{Writer, idle, Answer, write_polls}
use paper_plane.Conn.Write.Once.{write_polls_once}
use paper_plane.Conn.Read.{reading_length}
use paper_plane.Conn.Read.Frames.{Sealed, Reads, size, reader, concat, poll_read-frame}

-- Bytes that one end has written on a fresh connection are read by the other end, whatever follows
-- them, in whatever non-empty chunks they arrive: a poll that may take three turns more than there
-- are chunks is ready with as many of them as the caller has room for, and leaves the others
-- decrypted and what follows unread. The nonce has 12 bytes, the frame is shorter than 2 ^ 16, the
-- bytes are not empty and the cipher decrypts what it encrypted.
pub poll_read-write_polls :
    (c : Cipher) (nonce ciphertext bytes rest : List ℕ) (answers : List Answer) (n : ℕ) (w : Writer)
    (fuel room : ℕ) (arriving : List (List ℕ)) (ended : Bool)
    → c.encrypt nonce bytes ≡ some ciphertext
    → Sealed c room nonce ciphertext bytes rest ended
    → size c room nonce ciphertext bytes rest ended < 2 ^ 16
    → write_polls c (some nonce) answers bytes (record { write_state = idle; out = [] })
      ≡ (ready (ok n), w)
    → All (λ chunk. is_empty chunk ≡ false) arriving
    → concat arriving ≡ w.out ++ rest
    → length arriving + 3 ≤ fuel
    → Reads c room nonce ciphertext bytes rest ended fuel
        (reader [] [] reading_length arriving ended)
poll_read-write_polls c nonce ciphertext bytes rest answers n w fuel room arriving ended e h short
      done chunks sent enough =
    let (_, state) = write_polls_once c nonce ciphertext bytes [] answers n w e done in
    poll_read-frame c room nonce ciphertext bytes rest ended fuel arriving [] h chunks short
      (sent ∙ ap (λ (x : Writer). x.out ++ rest) state) enough
