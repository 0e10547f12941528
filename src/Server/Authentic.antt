-- ===== src/Server/Authentic.antt =====
-- Under which ids the server holds connections.
use paper_plane.Prelude.{
  ℕ, ◌≡◌, refl, sym, ap, ◌∙◌, ◌⊎◌, inl, inr, String, some, List, [], ◌∷◌, ◌++◌, arith, str_eq,
  eq_iff, Bool-cases, Option-cases,
}
use paper_plane.Prelude.Dict.{lookup, lookup-insert}
use paper_plane.Prelude.Exec.{Result-cases}
use paper_plane.Handshake.{Crypto, Handshake, read_handshake}
use paper_plane.Handshake.Checks.{Accepted, read_handshake-Accepted}
use paper_plane.Peers.{Keys}
use paper_plane.PeerPool.{PeerPool, insert_peer}
use paper_plane.Server.{Socket, hex_key, keep_peer, serve_socket, serve_sockets}

module _ (c : Crypto) (k : Keys) (signing_key : List ℕ) where
  -- On the socket, the owner of a key with this hexadecimal form has signed the ephemeral keys.
  abbrev pub Proves : String → Socket → Type 0
  Proves id s = (h : Handshake) × Accepted c signing_key s.secret s.transport h × (id ≡ hex_key k h)

  serve_cases :
      (s : Socket) (pool : PeerPool)
      → (serve_socket c k signing_key s pool ≡ pool)
        ⊎ ((h : Handshake) × (addr : String) × Accepted c signing_key s.secret s.transport h
            × (serve_socket c k signing_key s pool ≡ (insert_peer (hex_key k h) addr pool).1))
  unfolding serve_socket keep_peer
  serve_cases s pool = elim (Result-cases (read_handshake c signing_key s.secret s.transport).0) [
    | inr (e, failed) ↦ inl (ground arith)
    | inl (h, shaken) ↦ elim (Option-cases s.peer_addr) [
      | inl no_addr ↦ inl (ground arith)
      | inr (addr, has) ↦ inr (
        h,
        addr,
        read_handshake-Accepted c signing_key s.secret s.transport
            (read_handshake c signing_key s.secret s.transport).1 h (ground arith),
        ground arith,
      )
    ]
  ]

  one_socket :
      (s : Socket) (pool : PeerPool) (id : String) (handle : ℕ)
      → lookup id (serve_socket c k signing_key s pool).incoming ≡ some handle
      → (lookup id pool.incoming ≡ some handle) ⊎ Proves id s
  unfolding insert_peer
  one_socket s pool id handle held = elim (serve_cases s pool) [
    | inl same ↦ inl (sym (ap (λ (p : PeerPool). lookup id p.incoming) same) ∙ held)
    | inr (h, addr, checked, kept) ↦ elim (Bool-cases (str_eq (hex_key k h) id)) [
      | inl this ↦ inr (h, checked, ground (arith, eq_iff (hex_key k h) id))
      | inr other ↦ inl (ground (arith, lookup-insert (hex_key k h) id pool.next pool.incoming))
    ]
  ]

  -- After any sockets were served, a connection that the pool holds as incoming under an id was
  -- held before, or the id is the hexadecimal form of a valid key that was received on one of
  -- these sockets and has signed both ephemeral keys of its handshake.
  pub serve_sockets_authentic :
      (ss : List Socket) (pool : PeerPool) (id : String) (handle : ℕ)
      → lookup id (serve_sockets c k signing_key ss pool).incoming ≡ some handle
      → (lookup id pool.incoming ≡ some handle)
        ⊎ ((before : List Socket) × (s : Socket) × (after : List Socket) × (ss
              ≡ before ++ s ∷ after)
            × Proves id s)
  unfolding serve_sockets
  serve_sockets_authentic [] pool id handle held = inl held
  serve_sockets_authentic (s ∷ ss) pool id handle held =
      elim (serve_sockets_authentic ss (serve_socket c k signing_key s pool) id handle held) [
        | inr (before, t, after, split, proves) ↦
            inr (s ∷ before, t, after, ap (λ (l : List Socket). s ∷ l) split, proves)
        | inl first ↦ elim (one_socket s pool id handle first) [
          | inl already ↦ inl already
          | inr proves ↦ inr ([], s, ss, refl, proves)
        ]
      ]
