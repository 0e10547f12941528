-- ===== src/Network/Replies.antt =====
-- What a node does with a comparison that it is asked for, and with the answers to what it asks.
use paper_plane.Prelude.{
  ◌≡◌, refl, ◌⊎◌, inl, inr, String, Option, none, some, List, [], ◌∷◌, ◌++◌, arith, All-append,
}
use paper_plane.Prelude.Exec.{Result, Result-cases}
use paper_plane.Messages.{get_peers}
use paper_plane.Messages.Log.{log}
use paper_plane.Messages.Prefix.{Prefix-refl}
use paper_plane.Node.{Node}
use paper_plane.Requests.{RepoState}
use paper_plane.Manager.{repo_states, get_repo_states}
use paper_plane.Sync.{
  Variant, ComparePayload, file_download_request, file_download_response, messages, message_accept,
  batch_message_request, batch_message_response, compare_request, compare_response,
  file_want_request, file_want_response,
}
use paper_plane.Sync.Compare.{batch_requests, batch_requests-All}
use paper_plane.Sync.Serve.{World, serve_compare}
use paper_plane.Sync.Tasks.{finish_batch, finish_compare}
use paper_plane.Sync.Reachable.{repo_states_run, opened}
use paper_plane.Manager.Recover.{HasLog-congr}
use paper_plane.Network.{reply}
use paper_plane.Network.Fits.{Logs, SoundTask, Fits, Wireable}
use paper_plane.Network.Deliver.{Received, Received-trans, open-Received}
use paper_plane.Network.Exchange.{Answered, finish_batch-Received}

Received-refl : (t : Logs) (n : Node) → Fits t n → Received t n n
Received-refl t n fits = (fits, λ id. Prefix-refl (log id n.db))

module _ (t : Logs) (wireable : Wireable t) where
  -- The asking side, when an answer has been given.
  pub batch_reply-Received :
      (w : World) (zeroes : w.null ≡ 0) (id : String) (r : Result (List Variant)) (n : Node)
      → Fits t n
      → Answered t r
      → Received t n (finish_batch w id (reply r) n).1
  batch_reply-Received w zeroes id r n fits answered = elim answered [
    | inl (e, failed) ↦ rw failed (unfold finish_batch in Received-refl t n fits)
    | inr (ms, p, answer, sound) ↦
        rw answer (finish_batch-Received t wireable w zeroes ms id p n fits sound)
  ]

  repo_states-Received :
      (w : World) (zeroes : w.null ≡ 0) (ids : List String) (n : Node)
      → Fits t n
      → Received t n (repo_states w.null ids n).1
  repo_states-Received w zeroes [] n fits = unfold repo_states in Received-refl t n fits
  repo_states-Received w zeroes (id ∷ ids) n fits =
      let first_open = (open-Received t wireable w.null zeroes id n fits).0 in
      rw (repo_states_run w id ids n) (
        Received-trans t n (opened w id n) _ first_open
          (repo_states-Received w zeroes ids (opened w id n) first_open.0))

  compare_run :
      (w : World) (payload : List ComparePayload) (n : Node)
      → let n' = (serve_compare w payload n).1 in
        (n' ≡ n) ⊎ ((ids : List String) × (n' ≡ (repo_states w.null ids n).1))
  unfolding serve_compare get_repo_states
  compare_run w payload n = elim (Result-cases (get_peers n.db)) [
    | inr (e, failed) ↦ inl (ground arith)
    | inl (ids, found) ↦ inr (ids, ground arith)
  ]

  pub compare-Received :
      (w : World) (zeroes : w.null ≡ 0) (payload : List ComparePayload) (n : Node)
      → Fits t n
      → Received t n (serve_compare w payload n).1
  compare-Received w zeroes payload n fits = elim (compare_run w payload n) [
    | inl same ↦ rw same (Received-refl t n fits)
    | inr (ids, run) ↦ rw run (repo_states-Received w zeroes ids n fits)
  ]

finish_compare_run :
    (j : String) (states : List RepoState) (v : Option Variant) (n : Node)
    → let n' = (finish_compare j states v n).1 in
      (n' ≡ n)
      ⊎ ((ids : List String) × (n' ≡ record n { queue = n.queue ++ batch_requests j states ids }))
unfolding finish_compare
finish_compare_run j states none n = inl refl
finish_compare_run j states (some (file_download_request f p)) n = inl refl
finish_compare_run j states (some (file_download_response c l e)) n = inl refl
finish_compare_run j states (some (messages ms i p)) n = inl refl
finish_compare_run j states (some (message_accept c)) n = inl refl
finish_compare_run j states (some (batch_message_request c i)) n = inl refl
finish_compare_run j states (some (batch_message_response ms p)) n = inl refl
finish_compare_run j states (some (compare_request payload)) n = inl refl
finish_compare_run j states (some (compare_response ids)) n = inr (ids, refl)
finish_compare_run j states (some (file_want_request fs)) n = inl refl
finish_compare_run j states (some (file_want_response fs)) n = inl refl

-- The side that has asked for a comparison queues batch requests.
pub finish_compare-Received :
    (t : Logs) (j : String) (states : List RepoState) (v : Option Variant) (n : Node)
    → Fits t n
    → Received t n (finish_compare j states v n).1
finish_compare-Received t j states v n fits = elim (finish_compare_run j states v n) [
  | inl same ↦ rw same (Received-refl t n fits)
  | inr (ids, run) ↦ rw run (
    record {
      online = fits.online;
      logs = λ id. HasLog-congr id n _ refl refl (fits.logs id);
      beginning = fits.beginning;
      sound =
          All-append (SoundTask t) n.queue (batch_requests j states ids) fits.sound
            (batch_requests-All (SoundTask t) j states ids (λ c id. tt));
    },
    λ id. Prefix-refl (log id n.db),
  )
]
