-- ===== src/Tests/Connections.antt =====
-- Tests of the theorems on encrypted connections, with a cipher that adds one byte.
use paper_plane.Prelude.{
  ℕ, ◌≡◌, ◌≢◌, refl, true, false, Option, none, some, List, [], ◌∷◌, ◌++◌, arith, drop,
}
use paper_plane.Prelude.Exec.{ok}
use paper_plane.Conn.{Cipher, ready, frame}
use paper_plane.Conn.Read.{Reader, reading_length, reading_frame, poll_read}
use paper_plane.Conn.Read.Frames.{Sealed, Reads, reader}
use paper_plane.Conn.Read.Total.{poll_read_returns, poll_read_livelock}
use paper_plane.Conn.Write.{
  Answer, accepts, not_yet, Writer, idle, write_polls, poll_write, poll_flush, write_on,
}
use paper_plane.Conn.Write.Once.{write_polls_done, flush_repeats, interrupted}
use paper_plane.Conn.RoundTrip.{poll_read-write_polls}

abbrev unseal : List ℕ → Option (List ℕ)
unseal [] = none
unseal (b ∷ bs) = some bs

abbrev cipher : Cipher
cipher = record { encrypt = λ n bytes. some (0 ∷ bytes); decrypt = λ n bytes. unseal bytes }

abbrev nonce : List ℕ
nonce = 1 ∷ 2 ∷ 3 ∷ 4 ∷ 5 ∷ 6 ∷ 7 ∷ 8 ∷ 9 ∷ 10 ∷ 11 ∷ 12 ∷ []

abbrev text : List ℕ
text = 5 ∷ 6 ∷ []

abbrev sealed : List ℕ
sealed = 0 ∷ text

abbrev fresh_writer : Writer
fresh_writer = record { write_state = idle; out = [] }

abbrev frame_written : Writer
frame_written = record { write_state = idle; out = frame nonce sealed }

abbrev answers : List Answer
answers = accepts 3 ∷ not_yet ∷ accepts 20 ∷ []

text-Sealed : Sealed cipher 8 nonce sealed text (9 ∷ []) false
text-Sealed = record { nonce_len = refl; decrypts = refl; says = λ e. cc }

abbrev chunks : List (List ℕ)
chunks = (0 ∷ []) ∷ (15 ∷ nonce) ∷ (sealed ++ 9 ∷ []) ∷ []

poll_read-write_polls_example :
    Reads cipher 8 nonce sealed text (9 ∷ []) false 6 (reader [] [] reading_length chunks false)
unfolding write_polls poll_write write_on
poll_read-write_polls_example =
    poll_read-write_polls cipher nonce sealed text (9 ∷ []) answers 2 frame_written 6 8 chunks false
      refl text-Sealed (omega arith) refl (refl, (refl, (refl, tt))) refl (omega arith)

abbrev started : Reader
started = reader (0 ∷ []) [] (reading_frame 14) ((15 ∷ []) ∷ []) false

poll_read_returns_example : poll_read cipher 5 8 started ≢ none
poll_read_returns_example = poll_read_returns cipher 8 5 started refl (omega arith) (omega arith)

poll_read_livelock_example :
    poll_read cipher 100 8 (reader (7 ∷ []) [] reading_length [] true) ≡ none
poll_read_livelock_example = poll_read_livelock cipher 8 100 7

abbrev byte_answers : List Answer
byte_answers =
    accepts 1
    ∷ accepts 1
    ∷ accepts 1
    ∷ accepts 1
    ∷ accepts 1
    ∷ accepts 1
    ∷ accepts 1
    ∷ accepts 1
    ∷ accepts 1
    ∷ accepts 1
    ∷ accepts 1
    ∷ accepts 1
    ∷ accepts 1
    ∷ accepts 1
    ∷ accepts 1
    ∷ accepts 1
    ∷ accepts 1
    ∷ []

write_polls_done_example :
    write_polls cipher (some nonce) byte_answers text fresh_writer ≡ (ready (ok 2), frame_written)
write_polls_done_example =
    write_polls_done cipher nonce sealed text [] byte_answers refl (ground arith) (omega arith)

flush_repeats_example :
    poll_write cipher
      (some nonce)
      (accepts 20)
      text
      (poll_flush
        (accepts 20)
        (ready (ok tt))
        (interrupted (frame nonce sealed) 3 2 (0 ∷ 15 ∷ 1 ∷ []))).1
    ≡ (
      ready (ok 2),
      record {
        write_state = idle;
        out = 0 ∷ 15 ∷ 1 ∷ drop 3 (frame nonce sealed) ++ frame nonce sealed;
      },
    )
flush_repeats_example =
    flush_repeats cipher nonce sealed text (frame nonce sealed) (0 ∷ 15 ∷ 1 ∷ []) 3 2 20 20
      (ready (ok tt)) refl (omega arith) (omega arith) (omega arith)
