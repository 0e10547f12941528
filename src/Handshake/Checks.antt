-- ===== src/Handshake/Checks.antt =====
-- What a side has checked when its handshake succeeds, and what it gives away when it does not.
use paper_plane.Prelude.{
  ℕ, ◌≡◌, ◌≢◌, refl, ◌⊎◌, inl, inr, true, some, List, ◌++◌, take, drop, arith,
}
use paper_plane.Prelude.Exec.{ok, err, Error, bad_secret, unexpected_eof}
use paper_plane.Handshake.{
  Crypto, Handshake, Transport, read_exact, read_proof, read_handshake, write_handshake,
}

-- What reading gives, or that too little has arrived.
read_cases :
    (n : ℕ) (t : Transport)
    → (read_exact n t ≡ (err unexpected_eof, t))
      ⊎ (read_exact n t ≡ (ok (take n t.incoming), record t { incoming = drop n t.incoming }))
unfolding read_exact
read_cases n t = ground arith

proof_cases :
    (t : Transport)
    → ((t' : Transport) × (read_proof t ≡ (err unexpected_eof, t')) × (t'.sent ≡ t.sent))
      ⊎ (read_proof t ≡ (
        ok (take 32 t.incoming, take 64 (drop 32 t.incoming)),
        record t { incoming = drop 64 (drop 32 t.incoming) },
      ))
unfolding read_proof
proof_cases t = elim (read_cases 32 t) [
  | inl e ↦ inl (t, ground arith, refl)
  | inr e ↦ elim (read_cases 64 (record t { incoming = drop 32 t.incoming })) [
    | inl f ↦ inl (record t { incoming = drop 32 t.incoming }, ground arith, refl)
    | inr f ↦ inr (ground arith)
  ]
]

module _ (c : Crypto) (signing_key secret : List ℕ) where
  abbrev pub mine : List ℕ
  mine = c.ephemeral_pub secret

  abbrev pub theirs : Transport → List ℕ
  theirs t = take 32 t.incoming

  -- The node when its ephemeral key is out.
  abbrev greeted : Transport → Transport
  greeted t = record t { sent = t.sent ++ mine }

  abbrev heard : Transport → Transport
  heard t = record { incoming = drop 32 t.incoming; sent = t.sent ++ mine }

  abbrev pub Checked : Transport → Handshake → Transport → Type 0
  Checked t h t' =
      (c.verify h.their_pub_key (mine ++ theirs t) (take 64 (drop 32 (drop 32 t.incoming))) ≡ true)
      × (c.is_key h.their_pub_key ≡ true)
      × (h.their_pub_key ≡ take 32 (drop 32 t.incoming))
      × (c.expand (c.diffie_hellman secret (theirs t)) ≡ some h.symmetric_key)
      × (t'.sent
          ≡ ((t.sent ++ mine) ++ c.verifying_key signing_key)
            ++ c.sign signing_key (mine ++ theirs t))

  -- When a node that dials has succeeded, the key that it has found is valid, is the one that was
  -- received, and has signed both ephemeral keys; the symmetric key is derived from the secret
  -- that is shared with the ephemeral key received; and what was sent are the node's ephemeral
  -- key, its verifying key and its signature of both ephemeral keys.
  pub write_handshake-Checked :
      (t t' : Transport) (h : Handshake)
      → write_handshake c signing_key secret t ≡ (ok h, t')
      → Checked t h t'
  unfolding write_handshake
  write_handshake-Checked t t' h e = elim (read_cases 32 (greeted t)) [
    | inl short ↦ absurd (ground arith)
    | inr full ↦ elim (proof_cases (heard t)) [
      | inl (t'', short, _) ↦ absurd (ground arith)
      | inr proof ↦ ground arith
    ]
  ]

  pub write_handshake_refused :
      (t t' : Transport) (x : Error)
      → write_handshake c signing_key secret t ≡ (err x, t')
      → x ≢ bad_secret
      → t'.sent ≡ t.sent ++ c.ephemeral_pub secret
  unfolding write_handshake
  write_handshake_refused t t' x e ne = elim (read_cases 32 (greeted t)) [
    | inl short ↦ ground arith
    | inr full ↦ elim (proof_cases (heard t)) [
      | inl (t'', short, same) ↦ ground arith
      | inr proof ↦ ground arith
    ]
  ]

  -- The node that accepts, when it has answered.
  abbrev answered : Transport → Transport
  answered t = record {
    incoming = drop 32 t.incoming;
    sent =
        ((t.sent ++ mine) ++ c.verifying_key signing_key) ++ c.sign signing_key (theirs t ++ mine);
  }

  abbrev pub Accepted : Transport → Handshake → Type 0
  Accepted t h =
      (c.verify h.their_pub_key (theirs t ++ mine) (take 64 (drop 32 (drop 32 t.incoming))) ≡ true)
      × (c.is_key h.their_pub_key ≡ true)
      × (h.their_pub_key ≡ take 32 (drop 32 t.incoming))
      × (c.expand (c.diffie_hellman secret (theirs t)) ≡ some h.symmetric_key)

  pub read_handshake-Accepted :
      (t t' : Transport) (h : Handshake)
      → read_handshake c signing_key secret t ≡ (ok h, t')
      → Accepted t h
  unfolding read_handshake
  read_handshake-Accepted t t' h e = elim (read_cases 32 t) [
    | inl short ↦ absurd (ground arith)
    | inr full ↦ elim (proof_cases (answered t)) [
      | inl (t'', short, _) ↦ absurd (ground arith)
      | inr proof ↦ ground arith
    ]
  ]
