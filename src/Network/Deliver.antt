-- ===== src/Network/Deliver.antt =====
-- Messages that come with a request or an answer: the peer, the repository, the batch.
use paper_plane.Prelude.{
  ℕ, ◌^◌, ◌<◌, ◌≡◌, ◌≢◌, refl, ap, subst, ◌∙◌, inl, inr, String, true, Option, none, some, List, [],
  ◌∷◌, ◌++◌, arith, append-nil, All, length, length-retain-le, ltb, str_eq, eq_iff, Bool-cases,
  Option-cases, ◌⊎◌,
}
use paper_plane.Prelude.Dict.{lookup, lookup-insert}
use paper_plane.Models.{DbMessage, MessagePayload}
use paper_plane.Messages.{MessageDatabase, is_from}
use paper_plane.Messages.Log.{log}
use paper_plane.Messages.Prefix.{
  Prefix, In, Prefix-refl, Prefix-trans, Prefix-append, Prefix-length, Prefix-Numbered,
}
use paper_plane.Node.{Node, cur_counter, set_counter, cur_counter_congr, cur_counter-set_counter}
use paper_plane.Messages.{get_highest_counter}
use paper_plane.Prelude.Exec.{Result-cases}
use paper_plane.Sync.Serve.{World, accept_peer}
use paper_plane.Sync.Converge.Steps.{accept_peer_frame, accept_peer-HasLog}
use paper_plane.Peers.{PeerMessage}
use paper_plane.Prelude.Exec.{ok}
use paper_plane.Messages.Insert.{save_many_ok}
use paper_plane.Repository.{check_batch, newer, insert_message_batch}
use paper_plane.Repository.Log.{
  IsLog, Stored, check_batch_ok, insert_message_batch_cases, log-Stored_self, log-Stored,
}
use paper_plane.Repository.Batch.{none_from_other}
use paper_plane.Repository.Queued.{Queued-All, insert_message_batch-Queued}
use paper_plane.Manager.{get_or_create_repository}
use paper_plane.Manager.Recover.{HasLog, get_or_create_repository-IsLog}
use paper_plane.Network.Fits.{Logs, Sound, SoundTask, Fits, Extends, Wireable}

abbrev pub Received : Logs → Node → Node → Type 0
Received t n n' = Fits t n' × Extends n n'

-- Messages that stand in the logs and come from one author stand in the author's log.
In-author :
    (t : Logs) (id : String) (ms : List DbMessage)
    → All (λ m. is_from id m ≡ true) ms
    → All (λ m. In m (t m.peer_id)) ms
    → All (λ m. In m (t id)) ms
In-author t id [] from h = tt
In-author t id (m ∷ ms) from h =
    let author : m.peer_id ≡ id = ground (arith, from.0, eq_iff m.peer_id id) in
    (subst (λ a. In m (t a)) author h.0, In-author t id ms from.1 h.1)

All-newer :
    (t : Logs) (c : ℕ) (ms : List DbMessage)
    → All (λ m. In m (t m.peer_id)) ms
    → All (λ m. In m (t m.peer_id)) (newer c ms)
All-newer t c [] h = tt
All-newer t c (m ∷ ms) h = elim (Bool-cases (ltb c m.counter)) [
  | inl new ↦ rw new (h.0, All-newer t c ms h.1)
  | inr old ↦ rw old (All-newer t c ms h.1)
]

-- A fact about one author, and one about all others.
pub each_author :
    (P : String → Type 0) (id : String)
    → P id
    → ((other : String) → id ≢ other → P other)
    → (other : String) → P other
each_author P id this others other = elim (Bool-cases (str_eq id other)) [
  | inl same ↦ subst P ((eq_iff id other).0 same) this
  | inr differs ↦ others other (ground (arith, eq_iff id other))
]

-- Another repository agrees with its log when this one has a new counter.
pub HasLog-other :
    (id other : String) (c : ℕ) (n n' : Node)
    → id ≢ other
    → n'.repositories ≡ (set_counter id c n).repositories
    → log other n'.db ≡ log other n.db
    → HasLog other n
    → HasLog other n'
HasLog-other id other c n n' ne set rows h = record {
  numbered = rw rows h.numbered;
  agrees = elim h.agrees [
    | inl closed ↦ inl (
        unfold set_counter in
        (rw set (ground (arith, lookup-insert id other c n.repositories, eq_iff id other))))
    | inr is_log ↦ inr (record {
      numbered = rw rows is_log.numbered;
      counted =
          cur_counter_congr other n' (set_counter id c n) set
          ∙ ground
              (arith, cur_counter-set_counter id other c n, eq_iff id other, is_log.counted, rows);
    })
  ];
}

module _ (decode : List ℕ → Option MessagePayload) (t : Logs) (wireable : Wireable t) where
  -- A batch that the table has taken.
  Stored-Received :
      (id : String) (ms new : List DbMessage) (n n' : Node)
      → Fits t n
      → IsLog id n
      → All (λ m. In m (t m.peer_id)) new
      → length new < 2 ^ 31
      → check_batch id (cur_counter id n) 0 new ≡ ok tt
      → Stored id new n n'
      → All (SoundTask t) n'.queue
      → Received t n n'
  Stored-Received id ms new n n' fits is_log inside few passed st queue =
      let short : length (log id n.db) < 2 ^ 31 =
        omega (arith, Prefix-length (log id n.db) (t id) (fits.beginning id), (wireable id).1) in
      let (rows, counter, numbered) =
        log-Stored_self id new n n' is_log (omega (arith, short, few)) passed st in
      let (next, from) =
        check_batch_ok id (cur_counter id n) 0 new passed
          (omega (arith, is_log.counted, short, few)) in
      let longer : Prefix (log id n.db ++ new) (t id) =
        Prefix-Numbered new (log id n.db) (t id) (wireable id).0 (fits.beginning id)
          (ground (arith, is_log.counted, next)) (In-author t id new from inside) in
      let others : (other : String) → id ≢ other → log other n'.db ≡ log other n.db = λ other ne.
        log-Stored id other new n n' st
        ∙ ap (λ (l : List DbMessage). log other n.db ++ l) (none_from_other id other new ne from)
        ∙ append-nil (log other n.db) in
      (
        record {
          online =
              ap (λ (d : MessageDatabase). d.online) (save_many_ok n.db new st.0) ∙ fits.online;
          logs =
              each_author (λ a. HasLog a n') id
                (record {
                  numbered = numbered;
                  agrees = inr (record { numbered = numbered; counted = counter });
                })
                (λ other ne.
                  HasLog-other id other _ n n' ne st.1 (others other ne) (fits.logs other));
          beginning =
              each_author (λ a. Prefix (log a n'.db) (t a)) id (rw rows longer)
                (λ other ne. rw (others other ne) (fits.beginning other));
          sound = queue;
        },
        each_author (λ a. Prefix (log a n.db) (log a n'.db)) id
            (rw rows (Prefix-append (log id n.db) new))
            (λ other ne. rw (others other ne) (Prefix-refl (log other n.db))),
      )

  -- Messages that stand in the logs, in whatever order and however often they come.
  pub insert-Received :
      (id : String) (ms : List DbMessage) (n : Node)
      → Fits t n
      → IsLog id n
      → Sound t ms
      → Received t n (insert_message_batch decode id ms n).1
  insert-Received id ms n fits is_log sound =
      let n' = (insert_message_batch decode id ms n).1 in
      let new = newer (cur_counter id n) ms in
      let inside = All-newer t (cur_counter id n) ms sound.0 in
      let few : length new < 2 ^ 31 =
        omega (arith, sound.1, length-retain-le (λ m. ltb (cur_counter id n) m.counter) ms) in
      let queue : All (SoundTask t) n'.queue =
        Queued-All (SoundTask t) new n n' (insert_message_batch-Queued decode id ms n)
          (λ p. (inside, few)) fits.sound in
      elim (insert_message_batch_cases decode id ms n) [
        | inl same ↦ rw same (fits, λ other. Prefix-refl (log other n.db))
        | inr (passed, st) ↦ Stored-Received id ms new n n' fits is_log inside few passed st queue
      ]

-- What changes no row and no task, and leaves the repositories in agreement with the logs.
pub same-Received :
    (t : Logs) (n n' : Node)
    → Fits t n
    → n'.db ≡ n.db
    → n'.queue ≡ n.queue
    → ((id : String) → HasLog id n')
    → Received t n n'
same-Received t n n' fits db queue logs = (
  record {
    online = rw db fits.online;
    logs = logs;
    beginning = λ id. rw db (fits.beginning id);
    sound = rw queue fits.sound;
  },
  λ id. rw db (Prefix-refl (log id n.db)),
)

pub Received-trans : (t : Logs) (a b c : Node) → Received t a b → Received t b c → Received t a c
Received-trans t a b c (_, first) (fits, second) =
    (fits, λ id. Prefix-trans (log id a.db) (log id b.db) (log id c.db) (first id) (second id))

accept_peer-queue :
    (w : World) (p : Option PeerMessage) (n : Node) → (accept_peer w p n).1.queue ≡ n.queue
unfolding accept_peer
accept_peer-queue w none n = refl
accept_peer-queue w (some p) n = ground arith

pub accept_peer-Received :
    (t : Logs) (w : World) (p : Option PeerMessage) (n : Node)
    → Fits t n
    → Received t n (accept_peer w p n).1
accept_peer-Received t w p n fits =
    same-Received t n (accept_peer w p n).1 fits (accept_peer_frame w p n).0
      (accept_peer-queue w p n) (λ id. accept_peer-HasLog w p id n (fits.logs id))

-- The node itself, or one with the repository opened.
get_or_create_cases :
    (null : ℕ) (id : String) (n : Node)
    → let n' = (get_or_create_repository null id n).1 in
      (n' ≡ n) ⊎ ((c : ℕ) × (n' ≡ set_counter id c n))
unfolding get_or_create_repository
get_or_create_cases null id n = elim (Option-cases (lookup id n.repositories)) [
  | inr (c, open_already) ↦ inl (ground arith)
  | inl closed ↦ elim (Result-cases (get_highest_counter null n.db id)) [
    | inl (c, highest) ↦ inr (c, ground arith)
    | inr (e, failed) ↦ inr (0, ground arith)
  ]
]

module _ (t : Logs) (wireable : Wireable t) (null : ℕ) (zeroes : null ≡ 0) where
  pub open-Received :
      (id : String) (n : Node)
      → Fits t n
      → let n' = (get_or_create_repository null id n).1 in Received t n n' × IsLog id n'
  open-Received id n fits =
      let n' = (get_or_create_repository null id n).1 in
      let short = Prefix-length (log id n.db) (t id) (fits.beginning id) in
      let (is_log, db) =
        get_or_create_repository-IsLog null zeroes id n fits.online (fits.logs id)
          (omega (arith, short, (wireable id).1)) in
      elim (get_or_create_cases null id n) [
        | inl same ↦ (rw same (fits, λ other. Prefix-refl (log other n.db)), is_log)
        | inr (c, opened) ↦ (
          same-Received t n n' fits db
              (ap (λ (x : Node). x.queue) opened ∙ unfold set_counter in refl)
              (each_author (λ a. HasLog a n') id
                (record { numbered = is_log.numbered; agrees = inr is_log })
                (λ other ne.
                  HasLog-other id other c n n' ne (ap (λ (x : Node). x.repositories) opened)
                    (ap (log other) db) (fits.logs other))),
          is_log,
        )
      ]
