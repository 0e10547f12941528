-- ===== src/Resolver/Stalls.antt =====
-- A download that fails after another peer was announced, from the first want to the last.
use paper_plane.Prelude.{
  ◌≡◌, ◌≢◌, refl, String, true, false, none, some, List, [], ◌∷◌, arith, contains, eq_iff,
}
use paper_plane.Prelude.Dict.{Dict, lookup, insert, lookup-insert}
use paper_plane.Prelude.Exec.{Error, ok, err}
use paper_plane.Requests.{file_task, enqueue}
use paper_plane.Resolver.{ResolveWant, want_of, add_peer_have, get_peers_have}
use paper_plane.Resolver.Step.{FileResolver, known_file, remove_set, resolve_want, run_resolve}
use paper_plane.Resolver.Download.{Outside, run_file_task, try_peers, download_file}
use paper_plane.Resolver.Laws.{contains-remove_set}

module _ (o : Outside) (f p q : String) (r : FileResolver) where
  -- The want, the announcement of the other peer and the want that it sends, the end of the
  -- download, and the want that this sends.
  abbrev pub started : FileResolver
  started = resolve_want (want_of f) r

  abbrev pub announced : FileResolver
  announced = record started { storage = add_peer_have f q started.storage }

  abbrev pub ignored : FileResolver
  ignored = run_resolve announced

  abbrev pub failed : FileResolver
  failed = run_file_task o f (p ∷ []) ignored

  abbrev pub resolved : FileResolver
  resolved = run_resolve failed

  abbrev failed_want : ResolveWant
  failed_want = record { file_id = f; failed_peers = p ∷ [] }

  -- After the start, with these peers known and these wants waiting.
  abbrev state : Dict (List String) → List ResolveWant → FileResolver
  state have wants = record r {
    storage = record {
      need_resolve = remove_set f r.storage.need_resolve;
      peers_have = have;
      to_resolve = wants;
    };
    queue = enqueue (file_task f (p ∷ [])) r.queue;
  }

  module _ (unknown : known_file r.indexer.file_db f ≡ none)
      (need : contains r.storage.need_resolve f ≡ true)
      (only : lookup f r.storage.peers_have ≡ some (p ∷ [])) (idle : r.storage.to_resolve ≡ [])
      (apart : p ≢ q) where
    both : Dict (List String)
    both = insert f (p ∷ q ∷ []) r.storage.peers_have

    has_started : started ≡ state r.storage.peers_have []
    unfolding resolve_want
    has_started = ground (arith, idle)

    has_announced : announced ≡ state both (want_of f ∷ [])
    unfolding add_peer_have both
    has_announced = rw (has_started, only) refl

    has_both : lookup f both ≡ some (p ∷ q ∷ [])
    unfolding both
    has_both = ground (arith, lookup-insert f f (p ∷ q ∷ []) r.storage.peers_have, eq_iff f f)

    settled : contains (remove_set f r.storage.need_resolve) f ≡ false
    settled = contains-remove_set f r.storage.need_resolve

    has_ignored : ignored ≡ state both []
    unfolding run_resolve resolve_want
    has_ignored = rw has_announced (ground (arith, has_both, settled))

    has_failed :
        (e : Error)
        → o.make_folder ≡ ok tt
        → o.answer p ≡ err e
        → failed ≡ state both (failed_want ∷ [])
    unfolding run_file_task try_peers download_file
    has_failed e there unreached = rw has_ignored (ground arith)

    has_resolved :
        (e : Error)
        → o.make_folder ≡ ok tt
        → o.answer p ≡ err e
        → resolved ≡ state (insert f (q ∷ []) both) []
    unfolding run_resolve resolve_want
    has_resolved e there unreached =
        rw (has_failed e there unreached)
          (ground (arith, has_both, settled, eq_iff p p, eq_iff p q))

    -- The bug: if an unknown file is needed and one peer is known to have it, its want starts a
    -- download from this peer; if now another peer is announced, its want is taken, and then the
    -- download fails because the first peer cannot be reached, the want that this sends is taken
    -- too and leaves nothing: no other download is queued, no timer set, no want waits and the
    -- file is not needed any more, though the other peer is known to have it.
    pub download_stalls :
        (e : Error)
        → o.make_folder ≡ ok tt
        → o.answer p ≡ err e
        → (started.queue ≡ enqueue (file_task f (p ∷ [])) r.queue)
          × (resolved.queue ≡ started.queue)
          × (resolved.delayed ≡ r.delayed)
          × (resolved.storage.to_resolve ≡ [])
          × (contains resolved.storage.need_resolve f ≡ false)
          × (get_peers_have f resolved.storage ≡ q ∷ [])
    unfolding get_peers_have
    download_stalls e there unreached =
        let last = has_resolved e there unreached in
        (
          rw has_started refl,
          rw (last, has_started) refl,
          rw last refl,
          rw last refl,
          rw last settled,
          rw last (ground (arith, lookup-insert f f (q ∷ []) both, eq_iff f f)),
        )
