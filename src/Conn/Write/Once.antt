-- ===== src/Conn/Write/Once.antt =====
-- A write that is polled until it is ready puts its frame on the inner stream once.
use paper_plane.Prelude.{
  ℕ, zero, suc, ◌+◌, ◌≤◌, ◌<◌, ◌≡◌, refl, sym, ap, ◌∙◌, Option, some, List, [], ◌∷◌, ◌++◌, arith,
  length, take, drop, All, append_assoc, append-nil, length-drop, ◌≢◌,
}
use paper_plane.Prelude.Exec.{Result, ok}
use paper_plane.Conn.{Cipher, Poll, ready, frame}
use paper_plane.Conn.Write.{
  idle, writing_frame, Writer, Answer, accepts, not_yet, fails, write_on, poll_write, poll_flush,
  write_polls,
}

take_nil : (n : ℕ) → take {A = ℕ} n [] ≡ []
take_nil zero = refl
take_nil (suc n) = refl

take_further : (o n : ℕ) (xs : List ℕ) → take o xs ++ take n (drop o xs) ≡ take (o + n) xs
take_further zero n xs = ground arith
take_further (suc o) n [] = ground (arith, take_nil n, take_nil (suc o + n))
take_further (suc o) n (x ∷ xs) =
    let e : suc o + n ≡ suc (o + n) = omega arith in rw e (ground (arith, take_further o n xs))

take_whole : (n : ℕ) (xs : List ℕ) → length xs ≤ n → take n xs ≡ xs
take_whole zero [] h = refl
take_whole (suc n) [] h = refl
take_whole zero (x ∷ xs) h = absurd (omega arith)
take_whole (suc n) (x ∷ xs) h = ground (arith, take_whole n xs)

-- The inner stream takes at least a byte.
abbrev pub TakesSome : Answer → Type 0
TakesSome (accepts k) = 0 < k
TakesSome not_yet = ⊥
TakesSome (fails e) = ⊥

module _ (c : Cipher) (nonce : Option (List ℕ)) (bytes base buffer : List ℕ) (data_len : ℕ) where
  -- The frame `buffer` is under way, and `offset` bytes of it are out.
  abbrev under_way : ℕ → Writer
  under_way offset = record {
    write_state = writing_frame buffer offset data_len;
    out = base ++ take offset buffer;
  }

  abbrev written : Writer
  written = record { write_state = idle; out = base ++ buffer }

  resume_ok :
      (answers : List Answer) (offset n : ℕ) (s : Writer)
      → write_polls c nonce answers bytes (under_way offset) ≡ (ready (ok n), s)
      → (n ≡ data_len) × (s ≡ written)
  unfolding write_polls poll_write write_on
  resume_ok [] offset n s e = ground arith
  resume_ok (not_yet ∷ later) offset n s e = ground (arith, resume_ok later offset n s)
  resume_ok (fails x ∷ later) offset n s e = ground arith
  resume_ok (accepts k ∷ later) offset n s e = ground (
    arith,
    append_assoc base (take offset buffer) (take k (drop offset buffer)),
    take_further offset k buffer,
    take_whole (offset + k) buffer,
    resume_ok later (offset + k) n s,
  )

  -- Enough answers that take something finish it.
  resume_done :
      (answers : List Answer) (offset : ℕ)
      → All TakesSome answers
      → length buffer ≤ offset + length answers
      → offset < length buffer
      → write_polls c nonce answers bytes (under_way offset) ≡ (ready (ok data_len), written)
  unfolding write_polls poll_write write_on
  resume_done [] offset some_taken enough more = absurd (omega arith)
  resume_done (not_yet ∷ later) offset some_taken enough more = absurd (some_taken.0)
  resume_done (fails x ∷ later) offset some_taken enough more = absurd (some_taken.0)
  resume_done (accepts k ∷ later) offset some_taken enough more = ground (
    arith,
    append_assoc base (take offset buffer) (take k (drop offset buffer)),
    take_further offset k buffer,
    take_whole (offset + k) buffer,
    resume_done later (offset + k),
  )

-- A poll of a fresh write puts the frame under way.
start :
    (c : Cipher) (nonce ciphertext bytes out : List ℕ) (answers : List Answer)
    → c.encrypt nonce bytes ≡ some ciphertext
    → answers ≢ []
    → write_polls c (some nonce) answers bytes (record { write_state = idle; out = out })
      ≡ write_polls c
          (some nonce)
          answers
          bytes
          (under_way c (some nonce) bytes out (frame nonce ciphertext) (length bytes) 0)
unfolding write_polls poll_write write_on
start c nonce ciphertext bytes out [] e ne = absurd (ne refl)
start c nonce ciphertext bytes out (a ∷ later) e ne = ground (arith, append-nil out)

-- Whatever the inner stream answers, a write that can be encrypted and that is polled until it is
-- ready without an error returns its length, and has put exactly its frame on the inner stream.
pub write_polls_once :
    (c : Cipher) (nonce ciphertext bytes out : List ℕ) (answers : List Answer) (n : ℕ) (s : Writer)
    → c.encrypt nonce bytes ≡ some ciphertext
    → write_polls c (some nonce) answers bytes (record { write_state = idle; out = out })
      ≡ (ready (ok n), s)
    → (n ≡ length bytes) × (s ≡ record { write_state = idle; out = out ++ frame nonce ciphertext })
write_polls_once c nonce ciphertext bytes out [] n s e done =
    unfold write_polls in ground (arith, done)
write_polls_once c nonce ciphertext bytes out (a ∷ later) n s e done =
    resume_ok c (some nonce) bytes out (frame nonce ciphertext) (length bytes) (a ∷ later) 0 n s
      (sym (start c nonce ciphertext bytes out (a ∷ later) e (λ x. cc)) ∙ done)

-- A write that can be encrypted and is polled again and again, at least as often as its frame has
-- bytes, on an inner stream that takes a byte or more at every poll, is ready with its length and
-- has put exactly its frame on the inner stream.
pub write_polls_done :
    (c : Cipher) (nonce ciphertext bytes out : List ℕ) (answers : List Answer)
    → c.encrypt nonce bytes ≡ some ciphertext
    → All TakesSome answers
    → length (frame nonce ciphertext) ≤ length answers
    → write_polls c (some nonce) answers bytes (record { write_state = idle; out = out }) ≡ (
      ready (ok (length bytes)),
      record { write_state = idle; out = out ++ frame nonce ciphertext },
    )
write_polls_done c nonce ciphertext bytes out answers e some_taken enough =
    start c nonce ciphertext bytes out answers e (λ x. absurd (omega (arith, ap length x, enough)))
    ∙ resume_done c (some nonce) bytes out (frame nonce ciphertext) (length bytes) answers 0
        some_taken (omega (arith, enough)) (omega arith)

-- A frame is under way, `out` is what has been written.
abbrev pub interrupted : List ℕ → ℕ → ℕ → List ℕ → Writer
interrupted buffer offset data_len out = record {
  write_state = writing_frame buffer offset data_len;
  out = out;
}

-- The bug: when a flush completes a frame whose write was still pending, the next poll of this
-- write, of bytes that can be encrypted and with an inner stream that takes the frame, puts a
-- second frame of the same bytes behind the first.
pub flush_repeats :
    (c : Cipher) (nonce ciphertext bytes buffer out : List ℕ) (offset data_len k m : ℕ)
    (flushed : Poll (Result (Unit {0})))
    → c.encrypt nonce bytes ≡ some ciphertext
    → offset < length buffer
    → length buffer ≤ offset + k
    → length (frame nonce ciphertext) ≤ m
    → poll_write c
        (some nonce)
        (accepts m)
        bytes
        (poll_flush (accepts k) flushed (interrupted buffer offset data_len out)).1
      ≡ (
        ready (ok (length bytes)),
        record { write_state = idle; out = out ++ drop offset buffer ++ frame nonce ciphertext },
      )
unfolding poll_write poll_flush write_on
flush_repeats c nonce ciphertext bytes buffer out offset data_len k m flushed e more fits all =
    ground (
      arith,
      take_whole k (drop offset buffer),
      length-drop offset buffer,
      take_whole m (frame nonce ciphertext),
      append_assoc out (drop offset buffer) (frame nonce ciphertext),
    )
