-- ===== src/Network/Quiet.antt =====
-- What happens at a node without a message: it asks which files another has, and its resolver takes
-- a step.
use paper_plane.Prelude.{
  ℕ, ◌≡◌, refl, inl, inr, String, List, [], ◌∷◌, arith, All, All-append, retain, contains,
}
use paper_plane.Prelude.Exec.{Result-cases}
use paper_plane.Messages.Prefix.{Prefix-refl}
use paper_plane.Prelude.Dict.{Dict}
use paper_plane.Messages.Log.{log}
use paper_plane.Files.{all_file_ids}
use paper_plane.Node.{Node}
use paper_plane.Manager.Recover.{HasLog-congr}
use paper_plane.Requests.{file_task}
use paper_plane.Resolver.{FileResolverStorage, ResolveResult, add_peer_have_many, get_need_resolve}
use paper_plane.Resolver.Step.{FileResolver}
use paper_plane.Resolver.Reachable.{ResolverStep, OneFetch, ResolverStep-OneFetch}
use paper_plane.Sync.Serve.{World, handle_request, serve_file_want}
use paper_plane.Sync.Tasks.{finish_file_want}
use paper_plane.Network.{Network, file_want_exchange, resolver_of, of_resolver}
use paper_plane.Network.Fits.{Logs, SoundTask, Fits}
use paper_plane.Network.Deliver.{Received}

-- Only the storage of the resolver is changed.
asked :
    (wj : World) (i j : String) (net : Network)
    → (s : FileResolverStorage) × (file_want_exchange wj i j net ≡ record (net i) { storage = s })
unfolding file_want_exchange handle_request serve_file_want finish_file_want get_need_resolve
asked wj i j net = elim (Result-cases (all_file_ids (net j).indexer.file_db)) [
  | inl (all, listed) ↦ (
    add_peer_have_many (retain (contains all) (net i).storage.need_resolve) j (net i).storage,
    ground arith,
  )
  | inr (e, failed) ↦ ((net i).storage, ground arith)
]

one_more :
    (t : Logs) (n : Node) (r r' : FileResolver)
    → r.queue ≡ n.queue
    → Fits t n
    → OneFetch r r'
    → All (SoundTask t) r'.queue
one_more t n r r' same fits (inl kept) = rw (kept, same) fits.sound
one_more t n r r' same fits (inr (f, ps, more)) =
    rw (more, same) (All-append (SoundTask t) n.queue (file_task f ps ∷ []) fits.sound (tt, tt))

pub resolver-Received :
    (t : Logs) (n : Node) (to_index : List ResolveResult) (delayed : List String)
    (folder : Dict (List ℕ)) (r : FileResolver)
    → Fits t n
    → ResolverStep (resolver_of n to_index delayed folder) r
    → Received t n (of_resolver r n)
resolver-Received t n to_index delayed folder r fits step = (
  record {
    online = fits.online;
    logs = λ id. HasLog-congr id n _ refl refl (fits.logs id);
    beginning = fits.beginning;
    sound =
        one_more t n (resolver_of n to_index delayed folder) r refl fits
          (ResolverStep-OneFetch _ r step);
  },
  λ id. Prefix-refl (log id n.db),
)

pub asked-Received :
    (t : Logs) (wj : World) (i j : String) (net : Network)
    → Fits t (net i)
    → Received t (net i) (file_want_exchange wj i j net)
asked-Received t wj i j net fits =
    let (s, changed) = asked wj i j net in
    rw changed (
      record {
        online = fits.online;
        logs = λ id. HasLog-congr id (net i) _ refl refl (fits.logs id);
        beginning = fits.beginning;
        sound = fits.sound;
      },
      λ id. Prefix-refl (log id (net i).db),
    )
