-- ===== src/Conn/Read/Frames.antt =====
-- A frame is read whole however its bytes arrive.
use paper_plane.Prelude.{
  ℕ, zero, suc, ◌+◌, ◌≤◌, ◌<◌, ◌^◌, ◌≡◌, ◌≢◌, refl, sym, ap, ◌∙◌, Bool, false, some, List, [], ◌∷◌,
  ◌++◌, arith, length, take, drop, is_empty, All, append_assoc, length-append, take-length_append,
  drop-length_append,
}
use native.Mathlib.Decide.{dec_lt}
use paper_plane.Prelude.Word.{from_be16}
use paper_plane.Prelude.Exec.{ok}
use paper_plane.Conn.{Cipher, ready, nonce_size, frame}
use paper_plane.Conn.Read.{
  ReadState, reading_length, reading_frame, Reader, read_more, turn, poll_read,
}

abbrev pub concat : List (List ℕ) → List ℕ
concat [] = []
concat (chunk ∷ later) = chunk ++ concat later

-- The bytes that the reader has not used yet.
abbrev pub unread : Reader → List ℕ
unread s = s.read_buffer ++ concat s.arriving

abbrev pub reader : List ℕ → List ℕ → ReadState → List (List ℕ) → Bool → Reader
reader buffer decrypted state arriving ended = record {
  read_buffer = buffer;
  decrypted_buffer = decrypted;
  read_state = state;
  arriving = arriving;
  ended = ended;
}

-- What reading a frame leaves: the rest of its text, and the bytes behind it.
abbrev pub Delivered : List ℕ → List ℕ → ℕ → Reader → Type 0
Delivered plaintext rest room s =
    (s.decrypted_buffer ≡ drop room plaintext) × (s.read_state ≡ reading_length) × (unread s ≡ rest)

prefix_split :
    (xs ys zs ws : List ℕ)
    → xs ++ ys ≡ zs ++ ws
    → length zs ≤ length xs
    → (take (length zs) xs ≡ zs) × (drop (length zs) xs ++ ys ≡ ws)
prefix_split xs ys [] ws e h = ground arith
prefix_split [] ys (z ∷ zs) ws e h = absurd (omega arith)
prefix_split (x ∷ xs) ys (z ∷ zs) ws e h = ground (arith, prefix_split xs ys zs ws)

module _ (c : Cipher) (room : ℕ) (nonce ciphertext plaintext rest : List ℕ) (ended : Bool) where
  pub record Sealed : Type 0 where
    pub nonce_len : length nonce ≡ nonce_size
    pub decrypts : c.decrypt nonce ciphertext ≡ some plaintext
    pub says : plaintext ≢ []

  abbrev pub size : ℕ
  size = length (nonce ++ ciphertext)

  abbrev pub Reads : ℕ → Reader → Type 0
  Reads fuel s =
      (s' : Reader) × (poll_read c fuel room s ≡ some (ready (ok (take room plaintext)), s'))
      × Delivered plaintext rest room s'

  nonce_split :
      Sealed
      → (take nonce_size (nonce ++ ciphertext) ≡ nonce)
        × (drop nonce_size (nonce ++ ciphertext) ≡ ciphertext)
  nonce_split h =
      rw (sym h.nonce_len)
        (take-length_append nonce ciphertext, drop-length_append nonce ciphertext)

  full : Sealed → is_empty plaintext ≡ false
  full h = non_empty plaintext h.says
    where
      non_empty : (xs : List ℕ) → xs ≢ [] → is_empty xs ≡ false
      non_empty [] ne = absurd (ne refl)
      non_empty (x ∷ xs) ne = refl

  frame_whole :
      (fuel : ℕ) (buffer : List ℕ) (arriving : List (List ℕ))
      → Sealed
      → buffer ++ concat arriving ≡ (nonce ++ ciphertext) ++ rest
      → size ≤ length buffer
      → Reads (suc (suc fuel)) (reader buffer [] (reading_frame size) arriving ended)
  unfolding poll_read turn
  frame_whole fuel buffer arriving h e enough =
      let (first, behind) =
        prefix_split buffer (concat arriving) (nonce ++ ciphertext) rest e enough in
      let s' = reader (drop size buffer) (drop room plaintext) reading_length arriving ended in
      (s', ground (arith, h.decrypts, first, full h, nonce_split h), (refl, refl, behind))

  -- One more chunk.
  frame_wait :
      (fuel : ℕ) (chunk : List ℕ) (later : List (List ℕ)) (buffer : List ℕ)
      → is_empty chunk ≡ false
      → length buffer < size
      → poll_read c (suc fuel) room (reader buffer [] (reading_frame size) (chunk ∷ later) ended)
        ≡ poll_read c fuel room (reader (buffer ++ chunk) [] (reading_frame size) later ended)
  unfolding poll_read turn read_more
  frame_wait fuel [] later buffer full_chunk short = ground arith
  frame_wait fuel (x ∷ xs) later buffer full_chunk short = ground arith

  frame_phase :
      (fuel : ℕ) (arriving : List (List ℕ)) (buffer : List ℕ)
      → Sealed
      → All (λ chunk. is_empty chunk ≡ false) arriving
      → buffer ++ concat arriving ≡ (nonce ++ ciphertext) ++ rest
      → length arriving + 2 ≤ fuel
      → Reads fuel (reader buffer [] (reading_frame size) arriving ended)
  frame_phase zero arriving buffer h chunks e enough = absurd (omega arith)
  frame_phase (suc zero) arriving buffer h chunks e enough = absurd (omega arith)
  frame_phase (suc (suc fuel)) [] buffer h chunks e enough = frame_whole fuel buffer [] h e (
      omega (arith, ap length e, length-append buffer [], length-append (nonce ++ ciphertext) rest))
  frame_phase (suc (suc fuel)) (chunk ∷ later) buffer h chunks e enough =
      elim (dec_lt (length buffer) size) [
        | no whole ↦ frame_whole fuel buffer (chunk ∷ later) h e (omega arith)
        | yes short ↦
            let (s', run, delivered) =
              frame_phase (suc fuel) later (buffer ++ chunk) h chunks.1
                (append_assoc buffer chunk (concat later) ∙ e) (omega arith) in
            (s', frame_wait (suc fuel) chunk later buffer chunks.0 short ∙ run, delivered)
      ]

  -- The two bytes of the length.
  length_whole :
      (fuel a b : ℕ) (tail : List ℕ) (arriving : List (List ℕ))
      → from_be16 a b ≡ size
      → nonce_size ≤ size
      → poll_read c (suc fuel) room (reader (a ∷ b ∷ tail) [] reading_length arriving ended)
        ≡ poll_read c fuel room (reader tail [] (reading_frame size) arriving ended)
  unfolding poll_read turn
  length_whole fuel a b tail arriving e big = ground arith

  length_wait :
      (fuel : ℕ) (chunk : List ℕ) (later : List (List ℕ)) (buffer : List ℕ)
      → is_empty chunk ≡ false
      → length buffer < 2
      → poll_read c (suc fuel) room (reader buffer [] reading_length (chunk ∷ later) ended)
        ≡ poll_read c fuel room (reader (buffer ++ chunk) [] reading_length later ended)
  unfolding poll_read turn read_more
  length_wait fuel [] later buffer full_chunk short = absurd (ground arith)
  length_wait fuel (x ∷ xs) later [] full_chunk short = ground arith
  length_wait fuel (x ∷ xs) later (a ∷ []) full_chunk short = ground arith
  length_wait fuel (x ∷ xs) later (a ∷ b ∷ tail) full_chunk short = absurd (omega arith)

  -- Between two frames, when what is buffered and what arrives in non-empty chunks begin with a
  -- frame of fewer than 2 ^ 16 bytes that decrypts to a text that is not empty, a poll that may
  -- take three turns more than there are chunks is ready with the text, cut to the room of the
  -- caller, and leaves what does not fit decrypted and the bytes behind the frame unread.
  pub poll_read-frame :
      (fuel : ℕ) (arriving : List (List ℕ)) (buffer : List ℕ)
      → Sealed
      → All (λ chunk. is_empty chunk ≡ false) arriving
      → size < 2 ^ 16
      → buffer ++ concat arriving ≡ frame nonce ciphertext ++ rest
      → length arriving + 3 ≤ fuel
      → Reads fuel (reader buffer [] reading_length arriving ended)
  poll_read-frame zero arriving buffer h chunks short e enough = absurd (omega arith)
  poll_read-frame (suc fuel) arriving (a ∷ b ∷ tail) h chunks short e enough =
      let (s', run, delivered) =
        frame_phase fuel arriving tail h chunks (ground (arith, e)) (omega arith) in
      (
        s',
        length_whole fuel a b tail arriving
              (ground (arith, e, length-append nonce ciphertext, h.nonce_len))
              (omega (arith, length-append nonce ciphertext, h.nonce_len))
            ∙ run,
        delivered,
      )
  poll_read-frame (suc fuel) [] [] h chunks short e enough = absurd (ground (arith, e))
  poll_read-frame (suc fuel) [] (a ∷ []) h chunks short e enough = absurd (ground (arith, e))
  poll_read-frame (suc fuel) (chunk ∷ later) [] h chunks short e enough =
      let (s', run, delivered) =
        poll_read-frame fuel later chunk h chunks.1 short e (omega arith) in
      (s', length_wait fuel chunk later [] chunks.0 (omega arith) ∙ run, delivered)
  poll_read-frame (suc fuel) (chunk ∷ later) (a ∷ []) h chunks short e enough =
      let (s', run, delivered) =
        poll_read-frame fuel later (a ∷ chunk) h chunks.1 short e (omega arith) in
      (s', length_wait fuel chunk later (a ∷ []) chunks.0 (omega arith) ∙ run, delivered)
