-- ===== src/Sync/Transfer.antt =====
-- `upload_file` of sync_engine.rs and the loop of `FileTask::download_file` over its chunks.
use paper_plane.Prelude.{
  ℕ, String, ◌≡◌, refl, ◌∙◌, true, false, Option, some, List, [], ◌∷◌, ◌++◌, map, arith, is_empty,
  append_assoc, All, if◌then◌else◌,
}
use paper_plane.Prelude.Exec.{Result, ok, err, unexpected_response}
use paper_plane.Sync.{Variant, file_download_response}

-- The file system: what the reads of a file return, up to the first that returns nothing, or the
-- error of opening it or of one of the reads, with which the upload ends and after which no end of
-- the stream is sent, whatever was sent before; and `Path::extension` of its path below the root folder.
pub record Disk : Type 0 where
  pub read : String → Result (List (List ℕ))
  pub extension : String → String

chunks_of : String → List (List ℕ) → List Variant
chunks_of ext [] = file_download_response [] true ext ∷ []
chunks_of ext (c ∷ cs) =
    let rest = file_download_response c false ext ∷ chunks_of ext cs in
    if is_empty c then file_download_response [] true ext ∷ [] else rest

unfoldable pub upload_file : Disk → String → Result (List Variant)
unfolding chunks_of
upload_file disk path = elim (disk.read path) [
  | ok reads ↦ ok (chunks_of (disk.extension path) reads)
  | err e ↦ err e
]

-- The loop of `download_file` over the responses up to the end of the stream: what is written to
-- the file, and the last extension.
unfoldable pub download_loop : List ℕ → String → List (Option Variant) → Result (List ℕ × String)
download_loop file ext [] = ok (file, ext)
download_loop file ext (some (file_download_response chunk last e) ∷ rest) =
    download_loop (file ++ chunk) e rest
download_loop file ext (_ ∷ rest) = err unexpected_response

abbrev pub concat : List (List ℕ) → List ℕ
concat [] = []
concat (c ∷ cs) = c ++ concat cs

download_loop-chunks_of :
    (file : List ℕ) (e ext : String) (reads : List (List ℕ))
    → All (λ c. is_empty c ≡ false) reads
    → download_loop file e (map some (chunks_of ext reads)) ≡ ok (file ++ concat reads, ext)
unfolding download_loop chunks_of
download_loop-chunks_of file e ext [] h = refl
download_loop-chunks_of file e ext (c ∷ cs) h =
    rw h.0 (download_loop-chunks_of (file ++ c) ext ext cs h.1 ∙ rw append_assoc)

uploaded :
    (disk : Disk) (path : String) (reads : List (List ℕ)) (sent : List Variant)
    → disk.read path ≡ ok reads
    → upload_file disk path ≡ ok sent
    → sent ≡ chunks_of (disk.extension path) reads
unfolding upload_file
uploaded disk path reads sent found e = ground arith

-- A file whose reads return something, up to its end, and that is uploaded, is downloaded whole:
-- the bytes of all its reads, and its extension.
pub download_loop-upload_file :
    (disk : Disk) (path : String) (reads : List (List ℕ)) (sent : List Variant)
    → disk.read path ≡ ok reads
    → All (λ c. is_empty c ≡ false) reads
    → upload_file disk path ≡ ok sent
    → download_loop [] "" (map some sent) ≡ ok (concat reads, disk.extension path)
download_loop-upload_file disk path reads sent found full e =
    rw (uploaded disk path reads sent found e)
      (download_loop-chunks_of [] "" (disk.extension path) reads full)

pub upload_sent :
    (disk : Disk) (path : String) (reads : List (List ℕ))
    → disk.read path ≡ ok reads
    → (sent : List Variant) × (upload_file disk path ≡ ok sent)
unfolding upload_file
upload_sent disk path reads found = (chunks_of (disk.extension path) reads, ground arith)
