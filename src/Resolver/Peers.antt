-- ===== src/Resolver/Peers.antt =====
-- Which peers are known to have a file, and that one of them is enough.
use paper_plane.Prelude.{
  ℕ, Option, ◌≡◌, refl, inl, inr, ◌∙◌, ap, String, true, none, some, List, [], ◌∷◌, ◌++◌, arith,
  contains, contains-append, eq_iff, Option-cases, Bool-cases, str_eq, subst, sym,
}
use paper_plane.Prelude.Dict.{lookup, lookup-insert}
use paper_plane.Prelude.Exec.{ok, err, Error, Result-cases}
use paper_plane.Files.{FileDatabase, get_by_id, save_unknown}
use paper_plane.Requests.{file_task, enqueue}
use paper_plane.Resolver.{
  FileResolverStorage, want_of, or_none, add_peer_have, add_peer_have_many, get_peers_have,
}
use paper_plane.Sync.{Variant}
use paper_plane.Sync.Transfer.{download_loop}
use paper_plane.Resolver.Step.{FileResolver, known_file, resolve_want}
use paper_plane.Resolver.Download.{
  Outside, Store, store_of, local_path, download_file, try_peers, run_file_task,
}
use paper_plane.Resolver.Laws.{Holds, FromPeer, try_peers_lem, download_file_lem}

-- The peer is among those that have the file.
abbrev pub Has : String → String → FileResolverStorage → Type 0
Has file_id peer_id s = contains (get_peers_have file_id s) peer_id ≡ true

add_peer_have_self :
    (f peer_id : String) (s : FileResolverStorage) → Has f peer_id (add_peer_have f peer_id s)
unfolding add_peer_have get_peers_have
add_peer_have_self f peer_id s = ground (
  arith,
  lookup-insert f f (or_none (lookup f s.peers_have) ++ peer_id ∷ []) s.peers_have,
  eq_iff f f,
  eq_iff peer_id peer_id,
  contains-append (or_none (lookup f s.peers_have)) (peer_id ∷ []) peer_id,
)

add_peer_have_keeps :
    (f other peer_id : String) (s : FileResolverStorage)
    → Has other peer_id s
    → Has other peer_id (add_peer_have f peer_id s)
unfolding add_peer_have get_peers_have
add_peer_have_keeps f other peer_id s h = ground (
  arith,
  lookup-insert f other (or_none (lookup f s.peers_have) ++ peer_id ∷ []) s.peers_have,
  eq_iff f other,
  eq_iff peer_id peer_id,
  contains-append (or_none (lookup f s.peers_have)) (peer_id ∷ []) peer_id,
)

many_keeps :
    (fs : List String) (other peer_id : String) (s : FileResolverStorage)
    → Has other peer_id s
    → Has other peer_id (add_peer_have_many fs peer_id s)
unfolding add_peer_have_many
many_keeps [] other peer_id s h = h
many_keeps (f ∷ fs) other peer_id s h =
    many_keeps fs other peer_id (add_peer_have f peer_id s)
      (add_peer_have_keeps f other peer_id s h)

-- After an answer the peer is known to have each file that it names.
pub add_peer_have_many_lem :
    (fs : List String) (f peer_id : String) (s : FileResolverStorage)
    → contains fs f ≡ true
    → Has f peer_id (add_peer_have_many fs peer_id s)
unfolding add_peer_have_many
add_peer_have_many_lem [] f peer_id s h = cc
add_peer_have_many_lem (x ∷ fs) f peer_id s h = elim (Bool-cases (str_eq x f)) [
  | inl this ↦ many_keeps fs f peer_id (add_peer_have x peer_id s) (
      subst (λ a. Has a peer_id (add_peer_have x peer_id s)) ((eq_iff x f).0 this)
        (add_peer_have_self x peer_id s))
  | inr other ↦ add_peer_have_many_lem fs f peer_id (add_peer_have x peer_id s) (ground arith)
]

pub add_peer_have_many_need :
    (fs : List String) (peer_id : String) (s : FileResolverStorage)
    → (add_peer_have_many fs peer_id s).need_resolve ≡ s.need_resolve
unfolding add_peer_have_many
add_peer_have_many_need [] peer_id s = refl
add_peer_have_many_need (f ∷ fs) peer_id s =
    add_peer_have_many_need fs peer_id (add_peer_have f peer_id s) ∙ unfold add_peer_have in refl

-- A needed and unknown file is asked for from all peers that are known to have it.
pub resolve_want_starts :
    (f peer_id : String) (r : FileResolver)
    → known_file r.indexer.file_db f ≡ none
    → contains r.storage.need_resolve f ≡ true
    → Has f peer_id r.storage
    → let peers = get_peers_have f r.storage in
      ((resolve_want (want_of f) r).queue ≡ enqueue (file_task f peers) r.queue)
      × ((resolve_want (want_of f) r).indexer ≡ r.indexer)
unfolding resolve_want get_peers_have
resolve_want_starts f peer_id r unknown need has =
    elim (Option-cases (lookup f r.storage.peers_have)) [
      | inl nobody ↦ ground arith
      | inr ([], here) ↦ ground arith
      | inr (p ∷ ps, here) ↦ (ground arith, ground arith)
    ]

-- The file of this peer can be fetched: it answers whole, the answer can be written, and whatever
-- was tried before, the table takes the row.
pub record Fetchable (o : Outside) (f p : String) (files : FileDatabase) : Type 0 where
  pub answer : List (Option Variant)
  pub bytes : List ℕ
  pub ext : String
  pub reached : o.answer p ≡ ok answer
  pub whole : download_loop [] "" answer ≡ ok (bytes, ext)
  pub written : o.write_file p ≡ ok tt
  pub unknown : get_by_id files f ≡ ok none

fetched :
    (o : Outside) (f p : String) (s : Store)
    → Fetchable o f p s.files
    → (path : String) × ((download_file o f p s).0 ≡ ok path)
unfolding download_file
fetched o f p s can = (
  local_path f can.ext,
  ground (
    arith,
    can.reached,
    can.whole,
    can.written,
    save_unknown s.files
        (record { id = f; format = can.ext; local_path = local_path f can.ext; timestamp = o.now })
        can.unknown,
  ),
)

try_peers_finds :
    (o : Outside) (f p : String) (peers : List String) (s : Store)
    → contains peers p ≡ true
    → Fetchable o f p s.files
    → (found : String) × ((try_peers o f peers s).0 ≡ some found)
unfolding try_peers
try_peers_finds o f p [] s h can = cc
try_peers_finds o f p (x ∷ xs) s h can =
    let got = download_file_lem o f x s in
    let s1 = (download_file o f x s).1 in
    elim (Result-cases (download_file o f x s).0) [
      | inl (found, success) ↦ (found, ground arith)
      | inr (e, failure) ↦
          let same : s1.files ≡ s.files = rw failure at got in
          elim (Bool-cases (str_eq x p)) [
            | inl this ↦
                let (path, done) = fetched o f p s can in
                absurd (
                  differ e path (
                    sym failure
                    ∙ ap (λ (a : String). (download_file o f a s).0) ((eq_iff x p).0 this)
                    ∙ done))
            | inr other ↦
                let (found, rest) =
                  try_peers_finds o f p xs s1 (ground arith)
                    (subst (Fetchable o f p) (sym same) can) in
                (found, ground arith)
          ]
    ]
  where
    differ : (e : Error) (path : String) → err e ≡ ok path → ⊥
    differ e path q = cc

pub run_file_task_finds :
    (o : Outside) (f p : String) (peers : List String) (r : FileResolver)
    → contains peers p ≡ true
    → o.make_folder ≡ ok tt
    → Fetchable o f p r.indexer.file_db
    → let r' = run_file_task o f peers r in
      (found : String) × Holds f r'.indexer.file_db found
      × (r'.to_index ≡ r.to_index ++ record { file_id = f; file_path = found } ∷ [])
      × FromPeer o f peers found (store_of r')
unfolding run_file_task
run_file_task_finds o f p peers r h there can =
    let (found, some_path) = try_peers_finds o f p peers (store_of r) h can in
    elim (try_peers_lem o f peers (store_of r)) [
      | inl (none_left, kept) ↦ absurd (ground arith)
      | inr (path, s', run, holds, given) ↦
          let became : run_file_task o f peers r ≡ record r {
            indexer = record (r.indexer) { file_db = s'.files };
            to_index = r.to_index ++ record { file_id = f; file_path = path } ∷ [];
            folder = s'.folder;
          } =
            ground arith in
          (path, rw became holds, rw became refl, rw became given)
    ]
