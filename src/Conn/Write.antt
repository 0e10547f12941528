-- ===== src/Conn/Write.antt =====
-- The write side of conn.rs. Each poll of the inner stream has one answer, an argument.
pub mod Once
use paper_plane.Prelude.{
  ℕ, ◌+◌, Bool, true, false, Option, none, some, List, [], ◌∷◌, ◌++◌, length, take, drop, leb, ltb,
  if◌then◌else◌,
}
use paper_plane.Prelude.Exec.{Result, ok, err, Error, unavailable, bad_key}
use paper_plane.Conn.{Cipher, Poll, pending, ready, frame}

pub data WriteState : Type 0 where
  idle : WriteState
  writing_frame : (buffer : List ℕ) (offset data_len : ℕ) → WriteState

-- `out` is what the inner stream has taken.
pub record Writer : Type 0 where
  pub write_state : WriteState
  pub out : List ℕ

-- What the inner stream answers to a write: how many bytes it takes, none yet, or an error.
pub data Answer : Type 0 where
  accepts : ℕ → Answer
  not_yet : Answer
  fails : Error → Answer

unfoldable pub write_on : Answer → List ℕ → ℕ → ℕ → Writer → Poll (Result ℕ) × Writer
write_on not_yet buffer offset data_len s =
    (pending, record s { write_state = writing_frame buffer offset data_len })
write_on (fails e) buffer offset data_len s =
    (ready (err e), record s { write_state = writing_frame buffer offset data_len })
write_on (accepts n) buffer offset data_len s =
    let out = s.out ++ take n (drop offset buffer) in
    if leb (length buffer) (offset + n)
    then (ready (ok data_len), record { write_state = idle; out = out })
    else (pending, record { write_state = writing_frame buffer (offset + n) data_len; out = out })

-- The nonce is what `getrandom` returned.
unfoldable pub poll_write :
    Cipher → Option (List ℕ) → Answer → List ℕ → Writer → Poll (Result ℕ) × Writer
unfolding write_on
poll_write c nonce answer bytes s = elim s.write_state [
  | writing_frame buffer offset data_len ↦ write_on answer buffer offset data_len s
  | idle ↦ elim nonce [
    | none ↦ (ready (err unavailable), s)
    | some fresh ↦ elim (c.encrypt fresh bytes) [
      | none ↦ (ready (err bad_key), s)
      | some ciphertext ↦ write_on answer (frame fresh ciphertext) 0 (length bytes) s
    ]
  ]
]

-- A flush of a frame that is under way writes on first; `flushed` is the inner stream's flush.
flush_on : Poll (Result (Unit {0})) → Poll (Result ℕ) × Writer → Poll (Result (Unit {0})) × Writer
flush_on flushed (pending, s) = (pending, s)
flush_on flushed (ready (err e), s) = (ready (err e), s)
flush_on flushed (ready (ok n), s) = (flushed, s)

unfoldable pub poll_flush :
    Answer → Poll (Result (Unit {0})) → Writer → Poll (Result (Unit {0})) × Writer
unfolding write_on flush_on
poll_flush answer flushed s = elim s.write_state [
  | idle ↦ (flushed, s)
  | writing_frame buffer offset data_len ↦
      if ltb offset (length buffer)
      then flush_on flushed (write_on answer buffer offset data_len s)
      else (flushed, record s { write_state = idle })
]

shutdown_on :
    Poll (Result (Unit {0})) → Poll (Result (Unit {0})) × Writer → Poll (Result (Unit {0})) × Writer
shutdown_on closed (pending, s) = (pending, s)
shutdown_on closed (ready (err e), s) = (ready (err e), s)
shutdown_on closed (ready (ok u), s) = (closed, s)

unfoldable pub poll_shutdown :
    Answer
    → Poll (Result (Unit {0}))
    → Poll (Result (Unit {0}))
    → Writer
    → Poll (Result (Unit {0})) × Writer
unfolding poll_flush shutdown_on
poll_shutdown answer flushed closed s = shutdown_on closed (poll_flush answer flushed s)

-- A caller that polls the write of the same bytes again until it is ready.
unfoldable pub write_polls :
    Cipher → Option (List ℕ) → List Answer → List ℕ → Writer → Poll (Result ℕ) × Writer
unfolding poll_write
write_polls c fresh [] bytes s = (pending, s)
write_polls c fresh (a ∷ later) bytes s =
    let (r, s') = poll_write c fresh a bytes s in
    elim r [ pending ↦ write_polls c fresh later bytes s' | ready n ↦ (ready n, s') ]
