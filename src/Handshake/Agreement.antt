-- ===== src/Handshake/Agreement.antt =====
-- Two nodes that shake hands with each other agree on a key and on who they are.
use paper_plane.Prelude.{
  ℕ, ◌<◌, ◌≡◌, sym, ap, ◌∙◌, true, some, List, [], ◌++◌, length, arith, length-append,
  take-length_append, drop-length_append, append-nil, append_assoc,
}
use paper_plane.Prelude.Exec.{Result, ok, err, unexpected_eof}
use paper_plane.Handshake.{
  Crypto, Handshake, Transport, read_exact, read_proof, read_handshake, write_handshake,
}

-- What the program relies on: the lengths that it reads by, that a signature is verified by the
-- key of its signer, that both ends compute one secret, and that 32 bytes can be derived from it.
pub record IsSound (c : Crypto) : Type 0 where
  pub ephemeral_len : (secret : List ℕ) → length (c.ephemeral_pub secret) ≡ 32
  pub key_len : (key : List ℕ) → length (c.verifying_key key) ≡ 32
  pub signature_len : (key m : List ℕ) → length (c.sign key m) ≡ 64
  pub is_key : (key : List ℕ) → c.is_key (c.verifying_key key) ≡ true
  pub verifies : (key m : List ℕ) → c.verify (c.verifying_key key) m (c.sign key m) ≡ true
  pub shared :
      (a b : List ℕ)
      → c.diffie_hellman a (c.ephemeral_pub b) ≡ c.diffie_hellman b (c.ephemeral_pub a)
  pub expands : (secret : List ℕ) → (key : List ℕ) × (c.expand secret ≡ some key)

abbrev pub transport : List ℕ → List ℕ → Transport
transport incoming sent = record { incoming = incoming; sent = sent }

read_exact-append :
    (n : ℕ) (xs ys sent : List ℕ)
    → length xs ≡ n
    → read_exact n (transport (xs ++ ys) sent) ≡ (ok xs, transport ys sent)
unfolding read_exact
read_exact-append n xs ys sent e =
    rw (sym e)
      (ground (arith, length-append xs ys, take-length_append xs ys, drop-length_append xs ys))

read_short :
    (n : ℕ) (xs sent : List ℕ)
    → length xs < n
    → read_exact n (transport xs sent) ≡ (err unexpected_eof, transport xs sent)
unfolding read_exact
read_short n xs sent less = ground arith

module _ (c : Crypto) (h : IsSound c) (signing_key secret : List ℕ) where
  abbrev mine : List ℕ
  mine = c.ephemeral_pub secret

  abbrev proof_of : List ℕ → List ℕ → List ℕ
  proof_of key transcript = c.verifying_key key ++ c.sign key transcript

  read_proof-append :
      (key transcript rest sent : List ℕ)
      → read_proof (transport (proof_of key transcript ++ rest) sent)
        ≡ (ok (c.verifying_key key, c.sign key transcript), transport rest sent)
  unfolding read_proof
  read_proof-append key transcript rest sent = ground (
    arith,
    append_assoc (c.verifying_key key) (c.sign key transcript) rest,
    read_exact-append 32 (c.verifying_key key) (c.sign key transcript ++ rest) sent (h.key_len key),
    read_exact-append 64 (c.sign key transcript) rest sent (h.signature_len key transcript),
  )

  -- The dialing side waits for an answer to its ephemeral key.
  write_waits :
      write_handshake c signing_key secret (transport [] [])
      ≡ (err unexpected_eof, transport [] mine)
  unfolding write_handshake
  write_waits = ground (arith, read_short 32 [] mine)

  write_run :
      (their_key their_secret key : List ℕ)
      → let theirs = c.ephemeral_pub their_secret in
        c.expand (c.diffie_hellman secret theirs) ≡ some key
        → write_handshake c signing_key secret
            (transport (theirs ++ proof_of their_key (mine ++ theirs)) [])
          ≡ (
            ok (record { symmetric_key = key; their_pub_key = c.verifying_key their_key }),
            transport [] (mine ++ proof_of signing_key (mine ++ theirs)),
          )
  unfolding write_handshake
  write_run their_key their_secret key derived =
      let theirs = c.ephemeral_pub their_secret in
      let transcript = mine ++ theirs in
      ground (
        arith,
        derived,
        read_exact-append 32 theirs (proof_of their_key transcript) mine
            (h.ephemeral_len their_secret),
        read_proof-append their_key transcript [] mine,
        append-nil (proof_of their_key transcript),
        h.is_key their_key,
        h.verifies their_key transcript,
        append_assoc mine (c.verifying_key signing_key) (c.sign signing_key transcript),
      )

  -- The accepting side answers as soon as the ephemeral key is there.
  read_answers :
      (their_secret : List ℕ)
      → let theirs = c.ephemeral_pub their_secret in
        (read_handshake c signing_key secret (transport theirs [])).1.sent
        ≡ mine ++ proof_of signing_key (theirs ++ mine)
  unfolding read_handshake read_proof
  read_answers their_secret =
      let theirs = c.ephemeral_pub their_secret in
      let transcript = theirs ++ mine in
      ground (
        arith,
        append-nil theirs,
        read_exact-append 32 theirs [] [] (h.ephemeral_len their_secret),
        read_short 32 [] ((mine ++ c.verifying_key signing_key) ++ c.sign signing_key transcript),
        append_assoc mine (c.verifying_key signing_key) (c.sign signing_key transcript),
      )

  read_run :
      (their_key their_secret key : List ℕ)
      → let theirs = c.ephemeral_pub their_secret in
        c.expand (c.diffie_hellman secret theirs) ≡ some key
        → (read_handshake c signing_key secret
            (transport (theirs ++ proof_of their_key (theirs ++ mine)) [])).0
          ≡ ok (record { symmetric_key = key; their_pub_key = c.verifying_key their_key })
  unfolding read_handshake
  read_run their_key their_secret key derived =
      let theirs = c.ephemeral_pub their_secret in
      let transcript = theirs ++ mine in
      ground (
        arith,
        derived,
        read_exact-append 32 theirs (proof_of their_key transcript) []
            (h.ephemeral_len their_secret),
        read_proof-append their_key transcript []
            ((mine ++ c.verifying_key signing_key) ++ c.sign signing_key transcript),
        append-nil (proof_of their_key transcript),
        h.is_key their_key,
        h.verifies their_key transcript,
      )

-- The exchange: each side runs as far as the bytes that have arrived let it, and what it has sent
-- by then is what the other side has. A run on more bytes begins like the run on fewer.
module _ (c : Crypto) (key_a secret_a key_b secret_b : List ℕ) where
  abbrev pub hello : List ℕ
  hello = (write_handshake c key_a secret_a (transport [] [])).1.sent

  abbrev pub answer : List ℕ
  answer = (read_handshake c key_b secret_b (transport hello [])).1.sent

  abbrev pub dialed : Result Handshake × Transport
  dialed = write_handshake c key_a secret_a (transport answer [])

  abbrev pub accepted : Result Handshake × Transport
  accepted = read_handshake c key_b secret_b (transport dialed.1.sent [])

  -- If lengths, signatures and shared secrets are as the program relies on, a node that dials and
  -- a node that accepts, each given what the other has sent, both succeed, with the same symmetric
  -- key, and each with the verifying key of the other.
  pub handshake_agrees :
      IsSound c
      → (key : List ℕ) × (dialed.0
          ≡ ok (record { symmetric_key = key; their_pub_key = c.verifying_key key_b }))
        × (accepted.0 ≡ ok (record { symmetric_key = key; their_pub_key = c.verifying_key key_a }))
  handshake_agrees h =
      let pub_a = c.ephemeral_pub secret_a in
      let pub_b = c.ephemeral_pub secret_b in
      let (key, derived) = h.expands (c.diffie_hellman secret_a pub_b) in
      let said =
        ap (λ (r : Result Handshake × Transport). r.1.sent) (write_waits c h key_a secret_a) in
      let answered =
        ap (λ (x : List ℕ). (read_handshake c key_b secret_b (transport x [])).1.sent) said
        ∙ read_answers c h key_b secret_b secret_a in
      let same =
        ap (λ (x : List ℕ). write_handshake c key_a secret_a (transport x [])) answered
        ∙ write_run c h key_a secret_a key_b secret_b key derived in
      (
        key,
        ap (λ (r : Result Handshake × Transport). r.0) same,
        ap (λ (x : List ℕ). (read_handshake c key_b secret_b (transport x [])).0)
              (ap (λ (r : Result Handshake × Transport). r.1.sent) same)
            ∙ read_run c h key_b secret_b key_a secret_a key
                (ap c.expand (h.shared secret_b secret_a) ∙ derived),
      )
