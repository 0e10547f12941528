-- ===== src/Network/Files.antt =====
-- How a node of a network comes to a file that it needs: `FileWantTask` asks another node which of
-- the needed files it has, the resolver takes the want that follows, and `FileTask` downloads the
-- file from the nodes that have it.
use paper_plane.Prelude.{ℕ, ◌≡◌, String, false, Option, some, List, map, is_empty, All}
use paper_plane.Prelude.Exec.{Result, ok, err, unexpected_eof}
use paper_plane.Prelude.Dict.{Dict}
use paper_plane.Files.{FileDescription, get_by_id}
use paper_plane.Node.{Node}
use paper_plane.Resolver.Download.{Outside}
use paper_plane.Sync.{Variant, file_download_request}
use paper_plane.Sync.Serve.{World, handle_request}
use paper_plane.Network.{Network}

-- What is read of an answer up to the end of the stream, which comes early on an error.
abbrev pub responses : Result (List Variant) → Result (List (Option Variant))
responses (ok sent) = ok (map some sent)
responses (err e) = err unexpected_eof

-- A download in the network; each node has its own surroundings, and those of the node that asks are
-- `o`.
abbrev pub downloading : (String → World) → Network → String → Outside → Outside
downloading worlds net file_id o = record o {
  answer =
      λ p. responses (handle_request (worlds p) (some (file_download_request file_id p)) (net p)).0;
}

module _ (file_id : String) where
  -- Node `p` has the file, and its disk gives what it holds.
  pub record Serves (worlds : String → World) (p : String) (net : Network) : Type 0 where
    pub row : FileDescription
    pub found : get_by_id (net p).indexer.file_db file_id ≡ ok (some row)
    pub reads : List (List ℕ)
    pub readable : (worlds p).disk.read row.local_path ≡ ok reads
    pub full : All (λ c. is_empty c ≡ false) reads
