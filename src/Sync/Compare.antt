-- ===== src/Sync/Compare.antt =====
-- The comparison of states: the loops of the handler of `CompareRequest`, and of
-- `CompareStateTask` over the answer.
use paper_plane.Prelude.{
  ℕ, All-append, ◌≡◌, ◌<◌, ◌^◌, refl, ap, ◌∙◌, String, Bool, true, false, not, ◌&&◌, ◌||◌, List, [],
  ◌∷◌, ◌++◌, arith, str_eq, eq_iff, contains, any, any-append, retain, ltb, All, if◌then◌else◌,
}
use paper_plane.Prelude.Word.{as_i32, lt_i32}
use paper_plane.Requests.{RepoState, Task, batch_request_task}
use paper_plane.Sync.{ComparePayload}

-- The inner loop: whether the id was pushed and the loop left, else whether it was spotted.
pub data Scan : Type 0 where
  pushed : Scan
  passed : (spotted : Bool) → Scan

pub scan : RepoState → Bool → List ComparePayload → Scan
scan state spotted [] = passed spotted
scan state spotted (other ∷ others) =
    let on_spotted = scan state true others in
    let on_other = scan state spotted others in
    if str_eq other.peer_id state.peer_id
    then (if lt_i32 other.counter (as_i32 state.counter) then pushed else on_spotted)
    else on_other

abbrev pub push : Scan → String → List String → List String
push pushed id rest = id ∷ rest
push (passed true) id rest = rest
push (passed false) id rest = id ∷ rest

-- The ids of the repositories in which the other side is behind.
unfoldable pub behind : List RepoState → List ComparePayload → List String
unfolding scan
behind [] payload = []
behind (state ∷ states) payload =
    push (scan state false payload) state.peer_id (behind states payload)

unfoldable pub compare_payload : List RepoState → List ComparePayload
compare_payload [] = []
compare_payload (s ∷ ss) =
    record { counter = as_i32 s.counter; peer_id = s.peer_id } ∷ compare_payload ss

abbrev pub known : List RepoState → String → Bool
known states id = any (λ s. str_eq s.peer_id id) states

own_requests : String → List RepoState → List Task
own_requests peer_id [] = []
own_requests peer_id (s ∷ ss) =
    batch_request_task s.counter peer_id s.peer_id ∷ own_requests peer_id ss

first_requests : String → List String → List Task
first_requests peer_id [] = []
first_requests peer_id (id ∷ ids) = batch_request_task 0 peer_id id ∷ first_requests peer_id ids

-- The batch requests that follow an answer: of the repositories that the node knows those that
-- were named, with its counters, then those that it does not know, from 0.
unfoldable pub batch_requests : String → List RepoState → List String → List Task
unfolding own_requests first_requests
batch_requests peer_id states ids =
    own_requests peer_id (retain (λ s. contains ids s.peer_id) states)
    ++ first_requests peer_id (retain (λ id. not (known states id)) ids)

own_requests-All :
    (P : Task → Type 0) (peer_id : String) (states : List RepoState)
    → ((c : ℕ) (id : String) → P (batch_request_task c peer_id id))
    → All P (own_requests peer_id states)
unfolding own_requests
own_requests-All P peer_id [] h = tt
own_requests-All P peer_id (s ∷ ss) h = (h s.counter s.peer_id, own_requests-All P peer_id ss h)

first_requests-All :
    (P : Task → Type 0) (peer_id : String) (ids : List String)
    → ((c : ℕ) (id : String) → P (batch_request_task c peer_id id))
    → All P (first_requests peer_id ids)
unfolding first_requests
first_requests-All P peer_id [] h = tt
first_requests-All P peer_id (id ∷ ids) h = (h 0 id, first_requests-All P peer_id ids h)

-- Nothing but batch requests follows.
pub batch_requests-All :
    (P : Task → Type 0) (peer_id : String) (states : List RepoState) (ids : List String)
    → ((c : ℕ) (id : String) → P (batch_request_task c peer_id id))
    → All P (batch_requests peer_id states ids)
unfolding batch_requests
batch_requests-All P peer_id states ids h =
    All-append P (own_requests peer_id (retain (λ s. contains ids s.peer_id) states)) _
      (own_requests-All P peer_id _ h) (first_requests-All P peer_id _ h)

abbrev pub Small : RepoState → Type 0
Small s = s.counter < 2 ^ 31

-- A state of the other side for this repository that is as far as this one, or further.
abbrev up_to_date : RepoState → RepoState → Bool
up_to_date state s = str_eq s.peer_id state.peer_id && not (ltb s.counter state.counter)

abbrev pub lagging : RepoState → RepoState → Bool
lagging state s = str_eq s.peer_id state.peer_id && ltb s.counter state.counter

scan_lem :
    (state : RepoState) (spotted : Bool) (states : List RepoState)
    → Small state
    → All Small states
    → scan state spotted (compare_payload states) ≡ (
        if any (lagging state) states
        then pushed
        else passed (spotted || any (up_to_date state) states))
unfolding scan compare_payload
scan_lem state true [] small all = refl
scan_lem state false [] small all = refl
scan_lem state spotted (s ∷ ss) small all =
    ground (arith, scan_lem state spotted ss small all.1, scan_lem state true ss small all.1)

known_split :
    (m : RepoState) (theirs : List RepoState)
    → known theirs m.peer_id ≡ (any (lagging m) theirs || any (up_to_date m) theirs)
known_split m [] = refl
known_split m (s ∷ ss) = ground (arith, known_split m ss)

abbrev pub names : List RepoState → List String
names [] = []
names (s ∷ ss) = s.peer_id ∷ names ss

-- With counters below 2 ^ 31 on both sides, the answer to a comparison names a repository of this
-- node exactly when the other side has a state for it that is behind, or has none at all.
pub behind_lem :
    (mine theirs : List RepoState)
    → All Small mine
    → All Small theirs
    → behind mine (compare_payload theirs)
      ≡ names (retain (λ m. any (lagging m) theirs || not (known theirs m.peer_id)) mine)
unfolding behind
behind_lem [] theirs hm ht = refl
behind_lem (m ∷ mine) theirs hm ht =
    ground
      (arith, behind_lem mine theirs hm.1 ht, scan_lem m false theirs hm.0 ht, known_split m theirs)

-- Whether a task asks for the messages of a repository.
abbrev pub asks_for : String → Task → Bool
asks_for id t = elim t [ batch_request_task c p r ↦ str_eq r id | _ ↦ false ]

own_requests-any :
    (peer_id id : String) (states : List RepoState) (ids : List String)
    → any (asks_for id) (own_requests peer_id (retain (λ s. contains ids s.peer_id) states))
      ≡ (known states id && contains ids id)
unfolding own_requests
own_requests-any peer_id id [] ids = refl
own_requests-any peer_id id (s ∷ ss) ids =
    ground (arith, own_requests-any peer_id id ss ids, eq_iff s.peer_id id)

first_requests-any :
    (peer_id id : String) (states : List RepoState) (ids : List String)
    → any (asks_for id) (first_requests peer_id (retain (λ id. not (known states id)) ids))
      ≡ (not (known states id) && contains ids id)
unfolding first_requests
first_requests-any peer_id id states [] = ground arith
first_requests-any peer_id id states (x ∷ xs) =
    ground (arith, first_requests-any peer_id id states xs, eq_iff x id)

-- After an answer to a comparison the node asks for the messages of a repository exactly when the
-- answer names it.
pub batch_requests_lem :
    (peer_id id : String) (states : List RepoState) (ids : List String)
    → any (asks_for id) (batch_requests peer_id states ids) ≡ contains ids id
unfolding batch_requests
batch_requests_lem peer_id id states ids = rw any-append (
    ground
      (arith, own_requests-any peer_id id states ids, first_requests-any peer_id id states ids))

-- A state of the other side that is ahead of what this side has of its repository, or of which
-- this side has nothing.
abbrev pub is_ahead : List RepoState → String → RepoState → Bool
is_ahead mine id m = str_eq m.peer_id id && (any (lagging m) mine || not (known mine m.peer_id))

contains-names :
    (p : RepoState → Bool) (states : List RepoState) (id : String)
    → contains (names (retain p states)) id ≡ any (λ m. str_eq m.peer_id id && p m) states
contains-names p [] id = refl
contains-names p (m ∷ ms) id = ground (arith, contains-names p ms id)

-- With counters below 2 ^ 31 on both sides, a node that compares its states with those of another
-- node asks it for the messages of a repository exactly when the other one has a state for it that
-- is ahead of one of this node, or this node has none for it.
pub comparison_lem :
    (peer_id id : String) (mine theirs : List RepoState)
    → All Small mine
    → All Small theirs
    → any (asks_for id) (batch_requests peer_id mine (behind theirs (compare_payload mine)))
      ≡ any (is_ahead mine id) theirs
comparison_lem peer_id id mine theirs hm ht =
    batch_requests_lem peer_id id mine (behind theirs (compare_payload mine))
    ∙ ap (λ (ids : List String). contains ids id) (behind_lem theirs mine ht hm)
    ∙ contains-names (λ m. any (lagging m) mine || not (known mine m.peer_id)) theirs id
