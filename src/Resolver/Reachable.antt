-- ===== src/Resolver/Reachable.antt =====
-- The steps of file_resolver.rs and of the download tasks, in any order.
use paper_plane.Prelude.{◌≡◌, List-cases, ◌⊎◌, inl, inr, String, List, arith}
use paper_plane.Requests.{file_task, enqueue}
use paper_plane.Resolver.{ResolveWant}
use paper_plane.Resolver.Step.{FileResolver, resolve_want, run_resolve, run_index, wake}
use paper_plane.Resolver.Download.{Outside, Store, run_file_task}
use paper_plane.Resolver.Laws.{resolve_want_launches}

-- The two loops, the timer, and the end of a download.
pub data ResolverStep : FileResolver → FileResolver → Type 0 where
  resolves : (r : FileResolver) → ResolverStep r (run_resolve r)
  indexes : (r : FileResolver) → ResolverStep r (run_index r)
  wakes : (r : FileResolver) → ResolverStep r (wake r)
  downloads :
      (o : Outside) (file_id : String) (peer_ids : List String) (r : FileResolver)
      → ResolverStep r (run_file_task o file_id peer_ids r)
  -- A worker gives a download up: its file may have been written, and its row saved.
  cut_off :
      (s : Store) (r : FileResolver)
      → ResolverStep r
          (record r { indexer = record (r.indexer) { file_db = s.files }; folder = s.folder })

-- The queue as it was, or with one download more.
abbrev pub OneFetch : FileResolver → FileResolver → Type 0
OneFetch r r' =
    (r'.queue ≡ r.queue)
    ⊎ ((f : String) × (ps : List String) × (r'.queue ≡ enqueue (file_task f ps) r.queue))

want-OneFetch : (w : ResolveWant) (r : FileResolver) → OneFetch r (resolve_want w r)
want-OneFetch w r = elim (resolve_want_launches w r) [
  | inl same ↦ inl same
  | inr (ps, launch) ↦ inr (w.file_id, ps, launch.queued)
]

pub ResolverStep-OneFetch : (r r' : FileResolver) → ResolverStep r r' → OneFetch r r'
unfolding run_resolve run_index wake run_file_task
ResolverStep-OneFetch r r' (resolves _) = elim (List-cases r.storage.to_resolve) [
  | inl nothing ↦ inl (ground arith)
  | inr (w, rest, queued) ↦
      rw (queued, run_resolve)
        (want-OneFetch w (record r { storage = record (r.storage) { to_resolve = rest } }))
]
ResolverStep-OneFetch r r' (indexes _) = inl (ground arith)
ResolverStep-OneFetch r r' (wakes _) = inl (ground arith)
ResolverStep-OneFetch r r' (cut_off s _) = inl (ground arith)
ResolverStep-OneFetch r r' (downloads o file_id peer_ids _) = inl (ground arith)
