-- ===== src/Sync/Periodic.antt =====
-- The periodic task of `SyncEngine::new` (sync_engine.rs): for every known peer a comparison of the
-- states of all repositories, and a question for the files that are needed.
use paper_plane.Prelude.{
  ℕ, ◌≡◌, refl, sym, ap, subst, ◌∙◌, String, true, none, some, List, [], ◌∷◌, ◌++◌, arith, ◌⊎◌, inl,
  inr, Option-cases, append_assoc, append-nil, eq_iff,
}
use paper_plane.Prelude.Dict.{lookup, insert, lookup-insert}
use paper_plane.Prelude.Exec.{Result, Result-cases, ok, err, Exec, pure, modify, ◌>>◌}
use paper_plane.Requests.{
  RepoState, Task, RequestQueue, enqueue, compare_state_task, file_want_task,
}
use paper_plane.Messages.{get_peers, distinct_peers, get_highest_counter}
use paper_plane.Resolver.{get_need_resolve}
use paper_plane.Node.{Node, cur_counter, set_counter, cur_counter_congr}
use paper_plane.Manager.{get_or_create_repository, repo_states, get_repo_states}

-- The loop over the peers.
enqueue_rounds : List String → List RepoState → List String → Exec Node (Unit {0})
enqueue_rounds [] repo_states file_ids = pure tt
enqueue_rounds (peer_id ∷ peer_ids) repo_states file_ids = do
  modify (λ n. record n { queue = enqueue (compare_state_task peer_id repo_states) n.queue })
  modify (λ n. record n { queue = enqueue (file_want_task peer_id file_ids) n.queue })
  enqueue_rounds peer_ids repo_states file_ids

enqueue_if : List String → List String → Result (List RepoState) → Exec Node (Unit {0})
unfolding enqueue_rounds
enqueue_if peer_ids file_ids (err e) = pure tt
enqueue_if peer_ids file_ids (ok states) = enqueue_rounds peer_ids states file_ids

-- `all_peers` are the peers of the pool. That the states cannot be read is not an error.
unfoldable pub periodic_task : ℕ → List String → Exec Node (Unit {0})
unfolding enqueue_if
periodic_task null all_peers n =
    let (states, n') = get_repo_states null n in
    enqueue_if all_peers (get_need_resolve n.storage) states n'

-- The states of repositories, as the node has them.
abbrev pub states_of : Node → List String → List RepoState
states_of n [] = []
states_of n (id ∷ ids) = record { counter = cur_counter id n; peer_id = id } ∷ states_of n ids

abbrev pub rounds : List String → List RepoState → List String → List Task
rounds [] states file_ids = []
rounds (p ∷ ps) states file_ids =
    compare_state_task p states ∷ file_want_task p file_ids ∷ rounds ps states file_ids

-- Open repositories stay as they are, and nothing but repositories changes.
record Opens (n n' : Node) : Type 0 where
  keeps :
      (id : String) (c : ℕ) → lookup id n.repositories ≡ some c → lookup id n'.repositories ≡ some c
  same_db : n'.db ≡ n.db
  same_queue : n'.queue ≡ n.queue
  same_storage : n'.storage ≡ n.storage

module _ (null : ℕ) where
  get_or_create_cases :
      (id : String) (n : Node)
      → ((c : ℕ) × (lookup id n.repositories ≡ some c)
          × (get_or_create_repository null id n ≡ (ok tt, n)))
        ⊎ ((c : ℕ) × (lookup id n.repositories ≡ none)
            × (get_or_create_repository null id n
                ≡ (ok tt, record n { repositories = insert id c n.repositories })))
  unfolding get_or_create_repository set_counter
  get_or_create_cases id n = elim (Option-cases (lookup id n.repositories)) [
    | inr (c, has) ↦ inl (c, has, ground arith)
    | inl closed ↦ elim (Result-cases (get_highest_counter null n.db id)) [
      | inl (c, highest) ↦ inr (c, closed, ground arith)
      | inr (e, failed) ↦ inr (0, closed, ground arith)
    ]
  ]

  Opened : String → Node → Result (Unit {0}) × Node → Type 0
  Opened id n (r, n') = Opens n n' × ((c : ℕ) × (lookup id n'.repositories ≡ some c)) × (r ≡ ok tt)

  get_or_create-Opened : (id : String) (n : Node) → Opened id n (get_or_create_repository null id n)
  unfolding Opened
  get_or_create-Opened id n = elim (get_or_create_cases id n) [
    | inl (c, has, stays) ↦ rw stays (
      record { keeps = λ other d e. e; same_db = refl; same_queue = refl; same_storage = refl },
      (c, has),
      refl,
    )
    | inr (c, closed, opened) ↦ rw opened (
      record {
        keeps =
            λ other d e. ground (arith, lookup-insert id other c n.repositories, eq_iff id other);
        same_db = refl;
        same_queue = refl;
        same_storage = refl;
      },
      (c, ground (arith, lookup-insert id id c n.repositories, eq_iff id id)),
      refl,
    )
  ]

  opened_counter :
      (id : String) (c : ℕ) (n n' : Node)
      → Opens n n'
      → lookup id n.repositories ≡ some c
      → cur_counter id n ≡ cur_counter id n'
  unfolding cur_counter
  opened_counter id c n n' opens has = rw (has, opens.keeps id c has) refl

  repo_states_cons :
      (id : String) (ids : List String) (n : Node) {states : List RepoState}
      → let n1 = (get_or_create_repository null id n).1 in
        (get_or_create_repository null id n).0 ≡ ok tt
        → (repo_states null ids n1).0 ≡ ok states
        → repo_states null (id ∷ ids) n ≡ (
          ok (record { counter = cur_counter id n1; peer_id = id } ∷ states),
          (repo_states null ids n1).1,
        )
  unfolding repo_states
  repo_states_cons id ids n opened rest = ground arith

  ReadStates : List String → Node → Result (List RepoState) × Node → Type 0
  ReadStates ids n (r, n') = Opens n n' × (r ≡ ok (states_of n' ids))

  repo_states_lem : (ids : List String) (n : Node) → ReadStates ids n (repo_states null ids n)
  unfolding repo_states Opened ReadStates
  repo_states_lem [] n = (
    record { keeps = λ other d e. e; same_db = refl; same_queue = refl; same_storage = refl },
    refl,
  )
  repo_states_lem (id ∷ ids) n =
      let n1 = (get_or_create_repository null id n).1 in
      let (opens, (c, has), opened) = get_or_create-Opened id n in
      let (later, rest) = repo_states_lem ids n1 in
      subst (ReadStates (id ∷ ids) n) (sym (repo_states_cons id ids n opened rest)) (
        record {
          keeps = λ other d e. later.keeps other d (opens.keeps other d e);
          same_db = later.same_db ∙ opens.same_db;
          same_queue = later.same_queue ∙ opens.same_queue;
          same_storage = later.same_storage ∙ opens.same_storage;
        },
        rw (opened_counter id c n1 (repo_states null ids n1).1 later has) refl,
      )

  enqueue_rounds_lem :
      (all_peers : List String) (states : List RepoState) (file_ids : List String) (n : Node)
      → enqueue_rounds all_peers states file_ids n
        ≡ (ok tt, record n { queue = n.queue ++ rounds all_peers states file_ids })
  unfolding enqueue_rounds
  enqueue_rounds_lem [] states file_ids n = rw (append-nil n.queue) refl
  enqueue_rounds_lem (p ∷ ps) states file_ids n =
      enqueue_rounds_lem ps states file_ids (record n {
        queue = (n.queue ++ compare_state_task p states ∷ []) ++ file_want_task p file_ids ∷ [];
      })
      ∙ ap (λ (q : RequestQueue). (ok tt, record n { queue = q }))
          (append_assoc (n.queue ++ compare_state_task p states ∷ [])
              (file_want_task p file_ids ∷ []) (rounds ps states file_ids)
            ∙ append_assoc n.queue (compare_state_task p states ∷ [])
                (file_want_task p file_ids ∷ rounds ps states file_ids))

  states_read :
      (n : Node)
      → n.db.online ≡ true
      → get_repo_states null n ≡ repo_states null (distinct_peers n.db.rows) n
  unfolding get_repo_states get_peers
  states_read n online = ground arith

  states_of_queue :
      (ids : List String) (n : Node) (queue : RequestQueue)
      → states_of (record n { queue = queue }) ids ≡ states_of n ids
  states_of_queue [] n queue = refl
  states_of_queue (id ∷ ids) n queue =
      rw (cur_counter_congr id (record n { queue = queue }) n refl, states_of_queue ids n queue)
        refl

  -- The node when it has opened the repositories of all authors.
  abbrev opened_all : Node → Node
  opened_all n = (repo_states null (distinct_peers n.db.rows) n).1

  abbrev round : List String → Node → Node
  round all_peers n = record (opened_all n) {
    queue =
        (opened_all n).queue
        ++ rounds all_peers (states_of (opened_all n) (distinct_peers n.db.rows))
            n.storage.need_resolve;
  }

  periodic_run :
      (all_peers : List String) (n : Node)
      → n.db.online ≡ true
      → periodic_task null all_peers n ≡ (ok tt, round all_peers n)
  unfolding periodic_task enqueue_if get_need_resolve ReadStates
  periodic_run all_peers n online =
      let (opens, read) = repo_states_lem (distinct_peers n.db.rows) n in
      rw (states_read n online) (
        rw read (
          enqueue_rounds_lem all_peers (states_of (opened_all n) (distinct_peers n.db.rows))
            n.storage.need_resolve (opened_all n)))

  -- If the database answers, the periodic task puts behind the queue, for each of the known peers
  -- in turn, a comparison and a question for the files that are needed; the comparison names, for
  -- each author in the table of messages, the counter that the repository then has.
  pub periodic_task_lem :
      (all_peers : List String) (n : Node)
      → n.db.online ≡ true
      → let n' = (periodic_task null all_peers n).1 in
        n'.queue
        ≡ n.queue
          ++ rounds all_peers (states_of n' (distinct_peers n.db.rows)) n.storage.need_resolve
  unfolding ReadStates
  periodic_task_lem all_peers n online =
      let (opens, read) = repo_states_lem (distinct_peers n.db.rows) n in
      rw (periodic_run all_peers n online) (
        rw
          (
            states_of_queue (distinct_peers n.db.rows) (opened_all n) (round all_peers n).queue,
            opens.same_queue,
          )
          refl)
