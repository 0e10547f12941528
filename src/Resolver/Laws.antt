-- ===== src/Resolver/Laws.antt =====
-- What a want and a download lead to.
use paper_plane.Prelude.{
  ℕ, Option, ◌≡◌, refl, ◌⊎◌, inl, inr, String, true, false, not, ◌||◌, Bool-cases, none, some,
  Option-cases, List, [], ◌∷◌, arith, contains, retain, eq_iff, is_empty, All,
}
use paper_plane.Prelude.Dict.{Dict, lookup, insert, lookup-insert}
use paper_plane.Prelude.Exec.{Result, ok, err, Result-cases}
use paper_plane.Files.{FileDatabase, FileDescription, get_by_id, save, get_by_id_saved}
use paper_plane.Requests.{file_task, enqueue}
use paper_plane.Sync.{Variant}
use paper_plane.Sync.Transfer.{download_loop}
use paper_plane.Resolver.{ResolveWant, FileResolverStorage}
use paper_plane.Resolver.Step.{
  FileResolver, known_file, remove_set, not_failed, keep_peers, resolve_want,
}
use paper_plane.Resolver.Download.{Outside, Store, local_path, download_file, try_peers}

none_failed : (have : List String) → All (λ p. contains [] p ≡ false) have
none_failed [] = tt
none_failed (p ∷ ps) = (refl, none_failed ps)

retained :
    (failed have : List String)
    → All (λ p. contains failed p ≡ false) (retain (λ p. not (contains failed p)) have)
retained failed [] = tt
retained failed (p ∷ ps) = ground (arith, retained failed ps)

not_failed_lem :
    (w : ResolveWant) (have : List String)
    → All (λ p. contains w.failed_peers p ≡ false) (not_failed w have)
not_failed_lem w have = split_on w.failed_peers
  where
    split_on :
        (failed : List String)
        → All
            (λ p. contains failed p ≡ false)
            (not_failed (record { file_id = w.file_id; failed_peers = failed }) have)
    split_on [] = none_failed have
    split_on (f ∷ fs) = retained (f ∷ fs) have

pub contains-remove_set : (x : String) (set : List String) → contains (remove_set x set) x ≡ false
contains-remove_set x [] = refl
contains-remove_set x (y ∷ ys) = ground (arith, contains-remove_set x ys)

-- A download of `peers` is started for the want `w` in the state `r`.
pub record Launch (w : ResolveWant) (r : FileResolver) (peers : List String) : Type 0 where
  pub queued : (resolve_want w r).queue ≡ enqueue (file_task w.file_id peers) r.queue
  pub unknown : known_file r.indexer.file_db w.file_id ≡ none
  pub needed : contains r.storage.need_resolve w.file_id ≡ true
  pub settled : contains (resolve_want w r).storage.need_resolve w.file_id ≡ false
  pub some_peer : is_empty peers ≡ false
  pub fresh : All (λ p. contains w.failed_peers p ≡ false) peers

kept_need :
    (w : ResolveWant) (have : List String) (s : FileResolverStorage)
    → (keep_peers w have s).need_resolve ≡ s.need_resolve
kept_need w have s = ground arith

-- A want leaves the queue as it is, or starts one download of its file: then the file is unknown
-- and was needed, is not marked as needed any more, and the download has a peer, and only peers
-- that did not fail.
pub resolve_want_launches :
    (w : ResolveWant) (r : FileResolver)
    → ((resolve_want w r).queue ≡ r.queue) ⊎ ((peers : List String) × Launch w r peers)
unfolding resolve_want
resolve_want_launches w r = elim (Option-cases (known_file r.indexer.file_db w.file_id)) [
  | inr (descr, known) ↦ inl (ground arith)
  | inl unknown ↦ elim (Option-cases (lookup w.file_id r.storage.peers_have)) [
    | inl nobody ↦ inl (ground arith)
    | inr (have, has) ↦
        elim (Bool-cases
          (not (contains r.storage.need_resolve w.file_id) || is_empty (not_failed w have))) [
            | inl rests ↦ inl (ground arith)
            | inr starts ↦ inr (
              not_failed w have,
              record {
                queued = ground arith;
                unknown = unknown;
                needed = ground arith;
                settled = ground (
                  arith,
                  kept_need w have r.storage,
                  contains-remove_set w.file_id r.storage.need_resolve,
                );
                some_peer = ground arith;
                fresh = not_failed_lem w have;
              },
            )
          ]
  ]
]

-- The table holds the file at `path`.
abbrev pub Holds : String → FileDatabase → String → Type 0
Holds file_id files path =
    (f : FileDescription) × (f.local_path ≡ path) × (get_by_id files file_id ≡ ok (some f))

-- The file at `path` holds the bytes that the peer has answered, whole.
pub record Fetched (o : Outside) (file_id p path : String) (folder : Dict (List ℕ)) : Type 0 where
  pub answer : List (Option Variant)
  pub bytes : List ℕ
  pub ext : String
  pub reached : o.answer p ≡ ok answer
  pub whole : download_loop [] "" answer ≡ ok (bytes, ext)
  pub named : path ≡ local_path file_id ext
  pub written : lookup path folder ≡ some bytes

abbrev pub Downloaded : Outside → String → String → Store → Result String → Store → Type 0
Downloaded o file_id p s (err e) s' = s'.files ≡ s.files
Downloaded o file_id p s (ok path) s' =
    Holds file_id s'.files path × Fetched o file_id p path s'.folder

saved :
    (files files' : FileDatabase) (f : FileDescription)
    → save files f ≡ ok files'
    → get_by_id files' f.id ≡ ok (some f)
saved files files' f e = ground (arith, get_by_id_saved files files' f f.id e, eq_iff f.id f.id)

pub download_file_lem :
    (o : Outside) (file_id peer_id : String) (s : Store)
    → Downloaded o file_id peer_id s
        (download_file o file_id peer_id s).0
        (download_file o file_id peer_id s).1
unfolding download_file
download_file_lem o file_id peer_id s = elim (Result-cases (o.answer peer_id)) [
  | inr (x, unreached) ↦ ground arith
  | inl (responses, reached) ↦ elim (Result-cases (download_loop [] "" responses)) [
    | inr (x, broken) ↦ ground arith
    | inl ((bytes, ext), whole) ↦ elim (Result-cases (o.write_file peer_id)) [
      | inr (x, unwritten) ↦ ground arith
      | inl (done, written) ↦
          let f : FileDescription = record {
            id = file_id;
            format = ext;
            local_path = local_path file_id ext;
            timestamp = o.now;
          } in
          elim (Result-cases (save s.files f)) [
            | inr (x, refused) ↦ ground arith
            | inl (files', kept) ↦
                let folder = insert f.local_path bytes s.folder in
                let run : download_file o file_id peer_id s
                    ≡ (ok f.local_path, record { files = files'; folder = folder }) =
                  unfold download_file in ground arith in
                rw run (
                  (f, refl, saved s.files files' f kept),
                  record {
                    answer = responses;
                    bytes = bytes;
                    ext = ext;
                    reached = reached;
                    whole = whole;
                    named = refl;
                    written =
                        rw (lookup-insert f.local_path f.local_path bytes s.folder)
                          (ground (arith, eq_iff f.local_path f.local_path));
                  },
                )
          ]
    ]
  ]
]

-- One of the peers has given the file.
abbrev pub FromPeer : Outside → String → List String → String → Store → Type 0
FromPeer o file_id peers path s =
    (p : String) × (contains peers p ≡ true) × Fetched o file_id p path s.folder

pub try_peers_lem :
    (o : Outside) (file_id : String) (peers : List String) (s : Store)
    → (((try_peers o file_id peers s).0 ≡ none) × ((try_peers o file_id peers s).1.files ≡ s.files))
      ⊎ ((path : String) × (s' : Store) × (try_peers o file_id peers s ≡ (some path, s'))
          × Holds file_id s'.files path
          × FromPeer o file_id peers path s')
unfolding try_peers
try_peers_lem o file_id [] s = inl (refl, refl)
try_peers_lem o file_id (p ∷ ps) s =
    let got = download_file_lem o file_id p s in
    let s1 = (download_file o file_id p s).1 in
    elim (Result-cases (download_file o file_id p s).0) [
      | inl (path, success) ↦
          let (holds, fetched) = rw success at got in
          inr (path, s1, ground arith, holds, (p, ground (arith, eq_iff p p), fetched))
      | inr (x, failure) ↦
          let same : s1.files ≡ s.files = rw failure at got in
          elim (try_peers_lem o file_id ps s1) [
            | inl (none_left, kept) ↦ inl (ground arith, ground arith)
            | inr (path, s', run, holds, (q, among, fetched)) ↦
                inr (path, s', ground arith, holds, (q, ground arith, fetched))
          ]
    ]
