-- ===== src/Resolver/Download.antt =====
-- `FileTask` of sync_engine.rs: the peers are tried one after the other.
use Prim.Native.String.{◌++◌ as append}
use paper_plane.Prelude.{ℕ, String, Option, none, some, List, [], ◌∷◌, ◌++◌}
use paper_plane.Prelude.Exec.{Result, ok, err}
use paper_plane.Prelude.Dict.{Dict, insert}
use paper_plane.Files.{FileDatabase, save}
use paper_plane.Resolver.{send_want}
use paper_plane.Resolver.Step.{FileResolver}
use paper_plane.Sync.{Variant}
use paper_plane.Sync.Transfer.{download_loop}

-- What a download meets outside: the messages of a peer's answer up to the end of the stream, or
-- the error of reaching the peer; the time; whether `create_dir_all` makes the folder; and whether
-- the file of a peer's answer can be created, written and renamed.
pub record Outside : Type 0 where
  pub answer : String → Result (List (Option Variant))
  pub now : ℕ
  pub make_folder : Result (Unit {0})
  pub write_file : String → Result (Unit {0})

-- The table of files, and what the files below the folder hold. The file of an unfinished download
-- bears the bare id; it is removed again when the download fails, and is not part of the folder.
pub record Store : Type 0 where
  pub files : FileDatabase
  pub folder : Dict (List ℕ)

-- The path of a downloaded file below the folder.
abbrev pub local_path : String → String → String
local_path file_id ext = append file_id (append "." ext)

abbrev stored : String → Store → Result FileDatabase → Result String × Store
stored path s (ok files') = (ok path, record s { files = files' })
stored path s (err e) = (err e, s)

-- The file has its new name before its row is saved.
unfoldable pub download_file : Outside → String → String → Store → Result String × Store
download_file o file_id peer_id s = elim (o.answer peer_id) [
  | err e ↦ (err e, s)
  | ok responses ↦ elim (download_loop [] "" responses) [
    | err e ↦ (err e, s)
    | ok (bytes, ext) ↦ elim (o.write_file peer_id) [
      | err e ↦ (err e, s)
      | ok done ↦
          stored (local_path file_id ext)
            (record s { folder = insert (local_path file_id ext) bytes s.folder })
            (save s.files (record {
              id = file_id;
              format = ext;
              local_path = local_path file_id ext;
              timestamp = o.now;
            }))
    ]
  ]
]

-- The path from the first peer whose download succeeds, and what there is then.
unfoldable pub try_peers : Outside → String → List String → Store → Option String × Store
unfolding download_file
try_peers o file_id [] s = (none, s)
try_peers o file_id (p ∷ ps) s =
    let (r, s') = download_file o file_id p s in
    elim r [ ok path ↦ (some path, s') | err e ↦ try_peers o file_id ps s' ]

abbrev pub store_of : FileResolver → Store
store_of r = record { files = r.indexer.file_db; folder = r.folder }

-- The end of a task: a result for the index, or the want again with the peers that failed.
abbrev report : String → List String → Option String → FileResolver → FileResolver
report file_id peer_ids (some path) r = record r {
  to_index = r.to_index ++ record { file_id = file_id; file_path = path } ∷ [];
}
report file_id peer_ids none r = record r {
  storage = send_want (record { file_id = file_id; failed_peers = peer_ids }) r.storage;
}

-- `FileTask::run` to its end; that a worker gives it up after 30 seconds is not part of it.
unfoldable pub run_file_task : Outside → String → List String → FileResolver → FileResolver
unfolding try_peers
run_file_task o file_id peer_ids r = elim o.make_folder [
  | err e ↦ r
  | ok made ↦
      let (path, s) = try_peers o file_id peer_ids (store_of r) in
      report file_id peer_ids path
        (record r { indexer = record (r.indexer) { file_db = s.files }; folder = s.folder })
]
