-- ===== src/Platform/Chat/Paths.antt =====
-- The path of a file that is set, and that is asked for.
use paper_plane.Prelude.{ℕ, ◌≡◌, String, arith, str_eq, inl, inr, if◌then◌else◌}
use paper_plane.Prelude.Exec.{ok, Result-cases}
use paper_plane.Files
use paper_plane.Files.{FileDescription}
use paper_plane.Platform.Chat.{ChatManager, get_file_path, set_file_path}

-- When a path was set without an error, it is the path of its file, and every other file has the
-- path or the error that it had.
pub get_file_path-set_file_path :
    (now : ℕ) (file_id other format path : String) (c : ChatManager)
    → (set_file_path now file_id format path c).0 ≡ ok tt
    → get_file_path other (set_file_path now file_id format path c).1
      ≡ (if str_eq file_id other then ok path else get_file_path other c)
unfolding get_file_path set_file_path
get_file_path-set_file_path now file_id other format path c e =
    let file : FileDescription = record {
      id = file_id;
      format = format;
      local_path = path;
      timestamp = now;
    } in
    elim (Result-cases (Files.save c.node.indexer.file_db file)) [
      | inl (db, saved) ↦
          ground (arith, Files.get_by_id_saved c.node.indexer.file_db db file other saved)
      | inr (x, failed) ↦ absurd (ground arith)
    ]
