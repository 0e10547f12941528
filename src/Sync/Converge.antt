-- ===== src/Sync/Converge.antt =====
-- One batch exchange brings a log up to that of the node that answers.
pub mod Steps
use paper_plane.Prelude.{
  ℕ, ◌+◌, ◌-◌, ◌^◌, ◌≤◌, ◌<◌, ◌≡◌, refl, sym, ap, ◌∙◌, String, true, false, Option, none, some,
  List, [], ◌∷◌, ◌++◌, map, arith, inl, inr, leb, ◌==◌, length, length-append, length-drop, drop,
  drop-drop, drop-length_append, append-nil, All, All-retain, All-drop, if◌then◌else◌,
}
use native.Mathlib.Decide.{dec_lt}
use paper_plane.Prelude.Word.{as_i32, i32_as_u64, i32_round_trip}
use paper_plane.Prelude.Exec.{Result, ok, err}
use paper_plane.Models.{DbMessage, Message, from_message, into_message}
use paper_plane.Models.Convert.{map-from_message-into_message}
use paper_plane.Messages.{MessageDatabase, is_from}
use paper_plane.Messages.Log.{log, Numbered-drop, Numbered-All-lt}
use paper_plane.Messages.Query.{get_after-log, Orders}
use paper_plane.Messages.Insert.{unique_ids}
use paper_plane.Node.{Node, cur_counter, set_counter, cur_counter_congr}
use paper_plane.Peer.{Peer}
use paper_plane.Peers.{get_peer_by_id, PeerMessage}
use paper_plane.Repository.{get_messages, insert_message_batch}
use paper_plane.Repository.Log.{IsLog, insert_message_batch-IsLog}
use paper_plane.Repository.Batch.{insert_message_batch_accepts}
use paper_plane.Manager.{get_or_create_repository}
use paper_plane.Manager.Recover.{HasLog, get_or_create_repository-IsLog}
use paper_plane.Sync.{Variant, batch_message_response}
use paper_plane.Sync.Serve.{World, accept_peer, peer_message, serve_batch, answer_batch}
use paper_plane.Sync.Tasks.{first, finish_batch}
use Steps.{
  accept_peer_frame, accept_peer-HasLog, offered, answer_more, answer_none, finish_run, finish_none,
}

-- `a` asks `b` for the messages of a repository from `counter` on, and stores the answer.
unfoldable pub pull : World → World → String → ℕ → Node → Node → Result (Unit {0}) × Node
pull wa wb id counter a b = elim (serve_batch wb (as_i32 counter) id b).0 [
  | ok answer ↦ finish_batch wa id (first answer) a
  | err e ↦ (err e, a)
]

pull_answered :
    (wa wb : World) (id : String) (c : ℕ) (a b : Node) {answer : List Variant}
    → (serve_batch wb (as_i32 c) id b).0 ≡ ok answer
    → (pull wa wb id c a b).1 ≡ (finish_batch wa id (first answer) a).1
unfolding pull
pull_answered wa wb id c a b e = rw (e, pull)

empty_of_length : (l : List DbMessage) → length l ≡ 0 → l ≡ []
empty_of_length [] h = refl
empty_of_length (m ∷ ms) h = absurd (omega arith)

-- `rest` is what the answering node has more.
module _ (wa wb : World) (id : String) (a b : Node) (rest : List DbMessage) where
  -- Both tables hold a log of the repository, that of `b` going on from that of `a`, and the
  -- messages of `b` are new to the table of `a`.
  pub record Ahead : Type 0 where
    pub null_a : wa.null ≡ 0
    pub null_b : wb.null ≡ 0
    pub online_a : a.db.online ≡ true
    pub online_b : b.db.online ≡ true
    pub log_a : HasLog id a
    pub log_b : HasLog id b
    pub goes_on : log id b.db ≡ log id a.db ++ rest
    pub small : length (log id b.db) < 2 ^ 31
    pub orders : Orders (log id b.db)
    pub unique : unique_ids a.db.rows ≡ true
    pub fresh : unique_ids (a.db.rows ++ rest) ≡ true

  -- How many messages `a` has: the counter of its request.
  abbrev have : ℕ
  have = length (log id a.db)

  abbrev sent : List DbMessage
  sent = drop (have - 1) (log id b.db)

  sent_back : Ahead → map from_message (map into_message sent) ≡ sent
  sent_back h = map-from_message-into_message sent (
      All-drop (λ m. m.counter < 2 ^ 31) (have - 1) (log id b.db)
        (Numbered-All-lt (2 ^ 31) 1 (log id b.db) h.log_b.numbered (omega (arith, h.small))))

  -- Of what was sent the part behind the log of `a` is the rest.
  rest_of_sent : Ahead → drop (have + 1 - (1 + (have - 1))) sent ≡ rest
  rest_of_sent h =
      let total : have - 1 + (have + 1 - (1 + (have - 1))) ≡ have = omega arith in
      drop-drop (have + 1 - (1 + (have - 1))) (have - 1) (log id b.db)
      ∙ ap (λ (k : ℕ). drop k (log id b.db)) total
      ∙ ap (drop have) h.goes_on
      ∙ drop-length_append (log id a.db) rest

  received :
      (n : Node)
      → Ahead
      → IsLog id n
      → n.db ≡ a.db
      → let n' = (insert_message_batch wa.decode id sent n).1 in
        (log id n'.db ≡ log id b.db) × IsLog id n'
  received n h is_log same =
      let len : length (log id n.db) ≡ have =
        ap (λ (d : MessageDatabase). length (log id d)) same in
      let few : length (log id n.db) + length sent < 2 ^ 64 = omega (
        arith,
        len,
        h.small,
        length-drop (have - 1) (log id b.db),
        ap length h.goes_on,
        length-append (log id a.db) rest,
      ) in
      let new : drop (length (log id n.db) + 1 - (1 + (have - 1))) sent ≡ rest =
        rw len (rest_of_sent h) in
      (
        insert_message_batch_accepts wa.decode id sent (1 + (have - 1)) n is_log
              (ap (λ (d : MessageDatabase). d.online) same ∙ h.online_a)
              (ap (λ (d : MessageDatabase). unique_ids d.rows) same ∙ h.unique)
              (Numbered-drop (have - 1) 1 (log id b.db) h.log_b.numbered) (omega (arith, len))
              (All-drop (λ m. is_from id m ≡ true) (have - 1) (log id b.db) from_id) few
              (rw new (ap (λ (d : MessageDatabase). unique_ids (d.rows ++ rest)) same ∙ h.fresh))
            ∙ rw new (ap (λ (d : MessageDatabase). log id d ++ rest) same ∙ sym h.goes_on),
        insert_message_batch-IsLog wa.decode id sent n is_log few,
      )
    where
      from_id : All (λ m. is_from id m ≡ true) (log id b.db)
      from_id = unfold log in All-retain (is_from id) b.db.rows

  -- When `a` has asked `b` for the messages of a repository from its own counter on, the log of
  -- `a` is that of `b`, and is numbered without a gap. Both have a log of it, the one of `b` goes
  -- on from the one of `a` and is shorter than 2 ^ 31; both databases answer, NULL is read as 0,
  -- the ids of the table of `a` and of the messages that are new are all different, `b` can read
  -- the author's peer, and `a` accepts the peer that comes with a first answer.
  pub pull_lem :
      (p : Option Peer)
      → Ahead
      → get_peer_by_id wb.keys b.peers id ≡ ok p
      → (accept_peer wa (peer_message wb (offered have p)) a).0 ≡ ok tt
      → let a' = (pull wa wb id have a b).1 in (log id a'.db ≡ log id b.db) × IsLog id a'
  pull_lem p h peer accepted = elim (dec_lt have (length (log id b.db))) [
    | yes more ↦
        let given = peer_message wb (offered have p) in
        let a1 = (accept_peer wa given a).1 in
        let a2 = (get_or_create_repository wa.null id a1).1 in
        let same1 = (accept_peer_frame wa given a).0 in
        let len : length (log id a1.db) ≡ have =
          ap (λ (d : MessageDatabase). length (log id d)) same1 in
        let (is_log, same2) =
          get_or_create_repository-IsLog wa.null h.null_a id a1
            (ap (λ (d : MessageDatabase). d.online) same1 ∙ h.online_a)
            (accept_peer-HasLog wa given id a h.log_a) (omega (arith, len, h.small)) in
        let state : (pull wa wb id have a b).1 ≡ (insert_message_batch wa.decode id sent a2).1 =
          pull_answered wa wb id have a b
            (answer_more wb id have b p h.null_b h.online_b h.log_b more h.small h.orders peer)
          ∙ finish_run wa id (map into_message sent) given a accepted
          ∙ ap (λ (ms : List DbMessage). (insert_message_batch wa.decode id ms a2).1)
              (sent_back h) in
        rw state (received a2 h is_log (same2 ∙ same1))
    | no less ↦
        let answered =
          answer_none wb id have b h.null_b h.online_b h.log_b (omega arith)
            (omega (arith, h.small, ap length h.goes_on, length-append (log id a.db) rest)) in
        let none_left : rest ≡ [] =
          empty_of_length rest
            (omega (arith, ap length h.goes_on, length-append (log id a.db) rest)) in
        let (is_log, same) =
          get_or_create_repository-IsLog wa.null h.null_a id a h.online_a h.log_a
            (omega (arith, h.small, ap length h.goes_on, length-append (log id a.db) rest)) in
        let state : (pull wa wb id have a b).1 ≡ (get_or_create_repository wa.null id a).1 =
          pull_answered wa wb id have a b answered ∙ finish_none wa id a in
        rw (state, same)
          (
            sym (
                h.goes_on
                ∙ ap (λ (l : List DbMessage). log id a.db ++ l) none_left
                ∙ append-nil (log id a.db)),
            is_log,
          )
  ]
