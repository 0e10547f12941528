-- ===== src/Network/Restart.antt =====
-- A node of a network that stops and starts again: `prepare_deps` of app_context.rs on the database
-- file that the node has left.
use paper_plane.Prelude.{◌≡◌, refl, String, inl, arith}
use paper_plane.Prelude.Exec.{ok}
use paper_plane.Prelude.Dict.{lookup}
use paper_plane.Messages.Log.{log}
use paper_plane.Messages.Prefix.{Prefix-refl}
use paper_plane.Node.{Node}
use paper_plane.AppContext.{Start, AppContext, file_of, prepare_deps}
use paper_plane.AppContext.Restart.{prepare_deps-Read}
use paper_plane.Network.Fits.{Logs, Fits}
use paper_plane.Network.Deliver.{Received}

-- It has the rows that it had, and every repository is closed.
pub restart-Received :
    (s : Start) (name : String) (t : Logs) (n : Node) (ctx : AppContext)
    → Fits t n
    → (prepare_deps s name (file_of n)).0 ≡ ok ctx
    → Received t n ctx.node
unfolding lookup
restart-Received s name t n ctx fits e =
    let (read, _, closed, idle, _) = prepare_deps-Read s name (file_of n) ctx e in
    let db : ctx.node.db ≡ n.db = ground (arith, fits.online) in
    (
      record {
        online = rw db fits.online;
        logs = λ id. record {
          numbered = rw db (fits.logs id).numbered;
          agrees = inl (rw closed refl);
        };
        beginning = λ id. rw db (fits.beginning id);
        sound = rw idle tt;
      },
      λ id. rw db (Prefix-refl (log id n.db)),
    )
