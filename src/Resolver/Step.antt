-- ===== src/Resolver/Step.antt =====
-- The two loops of `FileResolver`, a step for each thing that they receive.
use paper_plane.Prelude.{
  ℕ, String, Bool, not, ◌||◌, Option, none, some, List, [], ◌∷◌, ◌++◌, contains, retain, str_eq,
  is_empty, if◌then◌else◌,
}
use paper_plane.Prelude.Dict.{Dict, lookup, insert}
use paper_plane.Prelude.Exec.{ok, err}
use paper_plane.Files.{FileDatabase, FileDescription, get_by_id}
use paper_plane.Index.{Indexer, index_file_path}
use paper_plane.Requests.{RequestQueue, file_task, enqueue}
use paper_plane.Resolver.{ResolveWant, ResolveResult, FileResolverStorage, add_need_resolve}

-- `to_index` is the channel of results; `delayed` are the files whose timer of five seconds runs,
-- the oldest first. `folder` is what the files below the node's folder hold.
pub record FileResolver : Type 0 where
  pub storage : FileResolverStorage
  pub indexer : Indexer
  pub queue : RequestQueue
  pub to_index : List ResolveResult
  pub delayed : List String
  pub folder : Dict (List ℕ)

abbrev pub known_file : FileDatabase → String → Option FileDescription
known_file files file_id = elim (get_by_id files file_id) [ ok f ↦ f | err e ↦ none ]

abbrev pub remove_set : String → List String → List String
remove_set x set = retain (λ y. not (str_eq y x)) set

abbrev pub not_failed : ResolveWant → List String → List String
not_failed w have =
    if is_empty w.failed_peers then have else retain (λ p. not (contains w.failed_peers p)) have

-- The peers that failed are forgotten.
abbrev pub keep_peers : ResolveWant → List String → FileResolverStorage → FileResolverStorage
keep_peers w have s =
    if is_empty w.failed_peers
    then s
    else record s { peers_have = insert w.file_id (not_failed w have) s.peers_have }

abbrev pub already_here : ResolveWant → FileDescription → FileResolver → FileResolver
already_here w descr r = record r {
  storage = record (r.storage) { need_resolve = remove_set w.file_id r.storage.need_resolve };
  to_index = r.to_index ++ record { file_id = w.file_id; file_path = descr.local_path } ∷ [];
}

abbrev delay_if : Bool → String → List String → List String
delay_if b file_id delayed = if b then delayed ++ file_id ∷ [] else delayed

abbrev pub from_peers : ResolveWant → List String → FileResolver → FileResolver
from_peers w have r =
    let left = not_failed w have in
    let kept = keep_peers w have r.storage in
    if not (contains r.storage.need_resolve w.file_id) || is_empty left
    then record r { storage = kept; delayed = delay_if (is_empty left) w.file_id r.delayed }
    else record r {
      storage = record kept { need_resolve = remove_set w.file_id kept.need_resolve };
      queue = enqueue (file_task w.file_id left) r.queue;
    }

unfoldable pub resolve_want : ResolveWant → FileResolver → FileResolver
resolve_want w r = elim (known_file r.indexer.file_db w.file_id) [
  | some descr ↦ already_here w descr r
  | none ↦ elim (lookup w.file_id r.storage.peers_have) [
    | some have ↦ from_peers w have r
    | none ↦ r
  ]
]

-- `run_resolve_async` on the oldest want.
unfoldable pub run_resolve : FileResolver → FileResolver
unfolding resolve_want
run_resolve r = elim r.storage.to_resolve [
  | [] ↦ r
  | w ∷ rest ↦ resolve_want w (record r { storage = record (r.storage) { to_resolve = rest } })
]

-- `run_index_async` on the oldest result.
unfoldable pub run_index : FileResolver → FileResolver
run_index r = elim r.to_index [
  | [] ↦ r
  | result ∷ rest ↦ record r {
    indexer = (index_file_path result.file_id result.file_path r.indexer).1;
    to_index = rest;
  }
]

-- The oldest timer has run out.
unfoldable pub wake : FileResolver → FileResolver
wake r = elim r.delayed [
  | [] ↦ r
  | f ∷ rest ↦ record r { storage = add_need_resolve f none r.storage; delayed = rest }
]
