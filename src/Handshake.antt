-- ===== src/Handshake.antt =====
-- ChatLib/chat-arch/src/handshake.rs: the two sides of the handshake over a stream. The
-- cryptography (x25519, ed25519, HKDF) is a parameter, and so are the secrets that are drawn.
pub mod Checks
pub mod Agreement
use paper_plane.Prelude.{
  ℕ, Bool, true, false, Option, none, some, List, [], ◌∷◌, ◌++◌, length, take, drop, ltb,
  if◌then◌else◌,
}
use paper_plane.Prelude.Exec.{
  Result, ok, err, Exec, pure, fail, gets, modify, or_fail, check, ◌>>=◌, ◌>>◌, unexpected_eof,
  bad_key, bad_signature, bad_secret,
}

pub record Crypto : Type 0 where
  -- The public key of an ephemeral secret, and the shared secret with a public key.
  pub ephemeral_pub : List ℕ → List ℕ
  pub diffie_hellman : List ℕ → List ℕ → List ℕ
  -- The verifying key of a signing key, and whether bytes are such a key.
  pub verifying_key : List ℕ → List ℕ
  pub is_key : List ℕ → Bool
  -- Of a key and a message; the last argument of `verify` is the signature.
  pub sign : List ℕ → List ℕ → List ℕ
  pub verify : List ℕ → List ℕ → List ℕ → Bool
  -- HKDF over SHA-256 with the derivation text, to 32 bytes.
  pub expand : List ℕ → Option (List ℕ)

pub record Handshake : Type 0 where
  pub symmetric_key : List ℕ
  pub their_pub_key : List ℕ

-- What has arrived and was not read, and what was written.
pub record Transport : Type 0 where
  pub incoming : List ℕ
  pub sent : List ℕ

unfoldable pub read_exact : ℕ → Exec Transport (List ℕ)
read_exact n t =
    if ltb (length t.incoming) n
    then (err unexpected_eof, t)
    else (ok (take n t.incoming), record t { incoming = drop n t.incoming })

unfoldable pub write_all : List ℕ → Exec Transport (Unit {0})
write_all bytes t = (ok tt, record t { sent = t.sent ++ bytes })

-- The key and the signature of the other side.
unfoldable pub read_proof : Exec Transport (List ℕ × List ℕ)
read_proof = do key ← read_exact 32; signature ← read_exact 64; pure (key, signature)

module _ (c : Crypto) where
  -- The key that both sides derive.
  derive : List ℕ → List ℕ → List ℕ → Exec Transport Handshake
  derive secret their_ephemeral their_key = do
    key ← or_fail (c.expand (c.diffie_hellman secret their_ephemeral)) bad_secret
    pure (record { symmetric_key = key; their_pub_key = their_key })

  check_proof : List ℕ → List ℕ → List ℕ → Exec Transport (Unit {0})
  check_proof transcript key signature = do
    check (c.is_key key) bad_key
    check (c.verify key transcript signature) bad_signature

  send_proof : List ℕ → List ℕ → Exec Transport (Unit {0})
  unfolding write_all
  send_proof signing_key transcript = do
    write_all (c.verifying_key signing_key)
    write_all (c.sign signing_key transcript)

  -- `signing_key` is the node's key, `secret` the ephemeral secret.
  unfoldable pub read_handshake : List ℕ → List ℕ → Exec Transport Handshake
  unfolding write_all send_proof check_proof derive
  read_handshake signing_key secret = do
    their_ephemeral ← read_exact 32
    let my_ephemeral = c.ephemeral_pub secret
    let transcript = their_ephemeral ++ my_ephemeral
    write_all my_ephemeral
    send_proof signing_key transcript
    proof ← read_proof
    check_proof transcript proof.0 proof.1
    derive secret their_ephemeral proof.0

  unfoldable pub write_handshake : List ℕ → List ℕ → Exec Transport Handshake
  unfolding write_all send_proof check_proof derive
  write_handshake signing_key secret = do
    let my_ephemeral = c.ephemeral_pub secret
    write_all my_ephemeral
    their_ephemeral ← read_exact 32
    proof ← read_proof
    let transcript = my_ephemeral ++ their_ephemeral
    check_proof transcript proof.0 proof.1
    send_proof signing_key transcript
    derive secret their_ephemeral proof.0
