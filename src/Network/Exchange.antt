-- ===== src/Network/Exchange.antt =====
-- The halves of an exchange between nodes that fit the logs.
use paper_plane.Prelude.{
  ◌∙◌, ℕ, ◌-◌, ◌^◌, ◌<◌, ◌≡◌, refl, sym, ◌⊎◌, inl, inr, String, true, Option, none, some, List, [],
  ◌∷◌, map, arith, subst, All, All-drop, drop, length, length-drop, leb, Bool-cases, All-retain,
  eq_iff,
}
use paper_plane.Prelude.Word.{i32_as_u64}
use paper_plane.Prelude.Exec.{panicked, Result, ok, err, Error, Result-cases}
use paper_plane.Models.{DbMessage, into_message}
use paper_plane.Models.Convert.{map-from_message-into_message}
use paper_plane.Messages.{is_from, read_rows}
use paper_plane.Messages.Log.{log, Numbered-All-lt}
use paper_plane.Messages.Query.{get_after-log, read_rows_cases}
use paper_plane.Messages.Prefix.{In, Prefix-length, In-Prefix, All-In_self}
use paper_plane.Node.{Node, cur_counter}
use paper_plane.Peers.{PeerMessage}
use paper_plane.Repository.{get_messages}
use paper_plane.Repository.Log.{IsLog}
use paper_plane.Manager.{get_or_create_repository}
use paper_plane.Sync.{Variant, batch_message_response}
use paper_plane.Sync.Serve.{
  World, accept_peer, answer_batch, first_peer, peer_message, serve_batch, serve_messages,
}
use paper_plane.Sync.Tasks.{finish_batch}
use paper_plane.Sync.Reachable.{received, serve_messages_run, finish_batch_run}
use paper_plane.Sync.Converge.Steps.{serve_run}
use paper_plane.Network.Fits.{Logs, Sound, Fits, Wireable}
use paper_plane.Network.Deliver.{
  Received, Received-trans, accept_peer-Received, open-Received, insert-Received,
}

In-All : (P : DbMessage → Type 0) (m : DbMessage) (l : List DbMessage) → All P l → In m l → P m
In-All P m [] all h = absurd h
In-All P m (x ∷ xs) all (inl e) = subst P (sym e) all.0
In-All P m (x ∷ xs) all (inr h) = In-All P m xs all.1 h

-- The answer to a batch request: an error, or messages that stand in the logs.
abbrev pub Answered : Logs → Result (List Variant) → Type 0
Answered t r =
    ((e : Error) × (r ≡ err e))
    ⊎ ((ms : List DbMessage) × (p : Option PeerMessage) × (r
          ≡ ok (batch_message_response (map into_message ms) p ∷ []))
        × Sound t ms)

module _ (t : Logs) (wireable : Wireable t) where
  small_counters :
      (ms : List DbMessage) → All (λ m. In m (t m.peer_id)) ms → All (λ m. m.counter < 2 ^ 31) ms
  small_counters [] h = tt
  small_counters (m ∷ ms) h =
      let (numbered, short) = wireable m.peer_id in
      (
        In-All (λ x. x.counter < 2 ^ 31) m (t m.peer_id)
            (Numbered-All-lt (2 ^ 31) 1 (t m.peer_id) numbered (omega arith)) h.0,
        small_counters ms h.1,
      )

  log-In : (id : String) (n : Node) → Fits t n → All (λ m. In m (t m.peer_id)) (log id n.db)
  log-In id n fits =
      inside (log id n.db) (All-In_self (log id n.db))
        (unfold log in All-retain (is_from id) n.db.rows)
    where
      inside :
          (ms : List DbMessage)
          → All (λ m. In m (log id n.db)) ms
          → All (λ m. is_from id m ≡ true) ms
          → All (λ m. In m (t m.peer_id)) ms
      inside [] h from = tt
      inside (m ∷ ms) h from =
          let author : id ≡ m.peer_id = ground (arith, from.0, eq_iff m.peer_id id) in
          (
            subst (λ a. In m (t a)) author
                (In-Prefix m (log id n.db) (t id) (fits.beginning id) h.0),
            inside ms h.1 from.1,
          )

  module _ (w : World) (zeroes : w.null ≡ 0) where
    -- What arrives on the wire is stored like what was sent.
    received-Received :
        (ms : List DbMessage) (id : String) (p : Option PeerMessage) (n : Node)
        → Fits t n
        → Sound t ms
        → Received t n (received w (map into_message ms) id p n)
    received-Received ms id p n fits sound =
        let n1 = (accept_peer w p n).1 in
        let accepted = accept_peer-Received t w p n fits in
        let (opened, is_log) = open-Received t wireable w.null zeroes id n1 accepted.0 in
        rw (map-from_message-into_message ms (small_counters ms sound.0), received)
          (Received-trans t n n1 _ accepted (
            Received-trans t n1 _ _ opened
              (insert-Received w.decode t wireable id ms _ opened.0 is_log sound)))

    pub serve_messages-Received :
        (ms : List DbMessage) (id : String) (p : Option PeerMessage) (n : Node)
        → Fits t n
        → Sound t ms
        → Received t n (serve_messages w (map into_message ms) id p n).1
    serve_messages-Received ms id p n fits sound =
        elim (serve_messages_run w (map into_message ms) id p n) [
          | inl refused ↦ rw refused (accept_peer-Received t w p n fits)
          | inr done ↦ rw done (received-Received ms id p n fits sound)
        ]

    pub finish_batch-Received :
        (ms : List DbMessage) (id : String) (p : Option PeerMessage) (n : Node)
        → Fits t n
        → Sound t ms
        → Received t n
            (finish_batch w id (some (batch_message_response (map into_message ms) p)) n).1
    finish_batch-Received ms id p n fits sound =
        elim (finish_batch_run w (map into_message ms) id p n) [
          | inl refused ↦ rw refused (accept_peer-Received t w p n fits)
          | inr done ↦ rw done (received-Received ms id p n fits sound)
        ]

    -- What is read from the log of an author.
    found_messages :
        (id : String) (c : ℕ) (n : Node)
        → Fits t n
        → IsLog id n
        → c < 2 ^ 63
        → (get_messages id c n ≡ err panicked)
          ⊎ ((ms : List DbMessage) × (get_messages id c n ≡ ok ms) × Sound t ms)
    found_messages id c n fits is_log low =
        let l = log id n.db in
        let shorter = Prefix-length l (t id) (fits.beginning id) in
        let read : get_messages id c n ≡ read_rows (drop (c - 1) l) =
          unfold get_messages in
          get_after-log n.db id c fits.online is_log.numbered
            (omega (arith, shorter, (wireable id).1)) low in
        elim (read_rows_cases (drop (c - 1) l)) [
          | inr panics ↦ inl (read ∙ panics)
          | inl rows ↦ inr (
            drop (c - 1) l,
            read ∙ rows,
            (
              All-drop (λ m. In m (t m.peer_id)) (c - 1) l (log-In id n fits),
              omega (arith, shorter, (wireable id).1, length-drop (c - 1) l),
            ),
          )
        ]

    answer-Answered :
        (id : String) (c : ℕ) (n : Node)
        → Fits t n
        → IsLog id n
        → c < 2 ^ 63
        → Answered t (answer_batch w id c n).0
    unfolding answer_batch
    answer-Answered id c n fits is_log low = elim (Result-cases (first_peer w id c n).0) [
      | inr (e, failed) ↦ inl (e, ground arith)
      | inl (peer, have) ↦ elim (found_messages id c n fits is_log low) [
        | inl panics ↦ inl (panicked, ground arith)
        | inr (ms, found, sound) ↦ inr (ms, peer_message w peer, ground arith, sound)
      ]
    ]

    answer_state : (id : String) (c : ℕ) (n : Node) → (answer_batch w id c n).1 ≡ n
    unfolding answer_batch first_peer
    answer_state id c n = ground arith

    pub serve_batch-Received :
        (counter : ℕ) (id : String) (n : Node)
        → Fits t n
        → Received t n (serve_batch w counter id n).1 × Answered t (serve_batch w counter id n).0
    serve_batch-Received counter id n fits =
        let n1 = (get_or_create_repository w.null id n).1 in
        let (opened, is_log) = open-Received t wireable w.null zeroes id n fits in
        let short : length (log id n1.db) < 2 ^ 31 =
          omega
            (arith, Prefix-length (log id n1.db) (t id) (opened.0.beginning id), (wireable id).1) in
        rw (serve_run w counter id n)
          (elim (Bool-cases (leb (cur_counter id n1) (i32_as_u64 counter))) [
            | inl less ↦ rw less (opened, inr ([], none, refl, (tt, omega arith)))
            | inr more ↦
                let low : i32_as_u64 counter < 2 ^ 63 =
                  ground (arith, is_log.counted, short, more) in
                rw (more, answer_state id (i32_as_u64 counter) n1)
                  (opened, answer-Answered id (i32_as_u64 counter) n1 opened.0 is_log low)
          ])
