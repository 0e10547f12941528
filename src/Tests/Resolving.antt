-- ===== src/Tests/Resolving.antt =====
-- Tests of the theorems on the resolution of files.
use paper_plane.Prelude.{arith, eq_iff, ◌≡◌, refl, String, false, List, [], ◌∷◌, contains}
use paper_plane.Prelude.Dict.{lookup}
use paper_plane.Prelude.Exec.{ok, err, dial_failed}
use paper_plane.Files
use paper_plane.Resolver.{get_peers_have}
use paper_plane.Resolver.Step.{FileResolver}
use paper_plane.Resolver.Download.{Outside}
use paper_plane.Resolver.Stalls.{started, resolved, download_stalls}
use paper_plane.Requests.{file_task, enqueue}
use paper_plane.Tests.{two_messages}

-- The peers that are known to have the file, and whether it is needed.
abbrev wanting : List String → List String → FileResolver
wanting need have = record {
  storage = record { need_resolve = need; peers_have = ("f1", have) ∷ []; to_resolve = [] };
  indexer = two_messages.indexer;
  queue = [];
  to_index = [];
  delayed = [];
  folder = [];
}

abbrev offline : Outside
offline = record {
  answer = λ p. err dial_failed;
  now = 0;
  make_folder = ok tt;
  write_file = λ p. ok tt;
}

-- The file is needed, and Ben is known to have it.
abbrev ben_has : FileResolver
ben_has = wanting ("f1" ∷ []) ("ben" ∷ [])

download_stalls_example :
    let r = started offline "f1" "ben" "carl" ben_has in
    let r' = resolved offline "f1" "ben" "carl" ben_has in
    (r.queue ≡ enqueue (file_task "f1" ("ben" ∷ [])) [])
    × (r'.queue ≡ r.queue)
    × (r'.delayed ≡ [])
    × (r'.storage.to_resolve ≡ [])
    × (contains r'.storage.need_resolve "f1" ≡ false)
    × (get_peers_have "f1" r'.storage ≡ "carl" ∷ [])
unfolding lookup Files.get_by_id
download_stalls_example =
    download_stalls offline "f1" "ben" "carl" ben_has refl refl refl refl
      (ground (arith, eq_iff "ben" "carl")) dial_failed refl refl
