-- ===== src/Console/Session.antt =====
-- The start of the console program on the database file, and the lines that its loop reads.
use paper_plane.Prelude.{ℕ, ◌+◌, ◌^◌, ◌<◌, ◌≡◌, sym, String, some, List, length, arith, inl, inr}
use paper_plane.Prelude.Exec.{ok, Result-cases}
use paper_plane.Manager.Running.{Runs}
use paper_plane.AppContext.{AppContext, DbPool, Start, rows_of, or_one, max_order, prepare_deps}
use paper_plane.AppContext.Run.{Positive}
use paper_plane.AppContext.Restart.{prepare_deps-Read, prepare_deps-IsClock}
use paper_plane.Console.{Codec, Input, read_loop, server}
use paper_plane.Console.Laws.{read_loop-Runs}

module _ (s : Start) (w : Codec) (name : String) (inputs : List Input) (pool : DbPool) where
  -- The order counter of a start.
  abbrev first_order : ℕ
  first_order = or_one (s.read_u64 (max_order (rows_of pool.messages)))

  pub server_started :
      (first : AppContext)
      → (prepare_deps s name pool).0 ≡ ok first
      → server s w name inputs pool ≡ ok (read_loop w inputs first)
  unfolding server
  server_started first started = ground arith

  up :
      (deps : AppContext)
      → server s w name inputs pool ≡ ok deps
      → (first : AppContext) × ((prepare_deps s name pool).0 ≡ ok first)
        × (deps ≡ read_loop w inputs first)
  unfolding server
  up deps e = elim (Result-cases (prepare_deps s name pool).0) [
    | inl (first, started) ↦ (first, started, ground arith)
    | inr (x, failed) ↦ absurd (ground arith)
  ]

  -- If the driver reads numbers below 2 ^ 63 as they are, the orders in the table of messages are
  -- below 2 ^ 63, and one more for each line does not overflow the order counter with which the
  -- start begins, then after a start that succeeds and any lines that are read from the console,
  -- with nothing else happening beside the loop, the manager is alive, and the order counter is at
  -- least the order of every row and has grown by at most the number of lines.
  pub server-Runs :
      (deps : AppContext)
      → ((order : ℕ) → order < 2 ^ 63 → s.read_u64 (some order) ≡ some order)
      → Positive (rows_of pool.messages)
      → first_order + length inputs < 2 ^ 64
      → server s w name inputs pool ≡ ok deps
      → Runs (first_order + length inputs) deps.node
  server-Runs deps reads positive few e =
      let (first, started, reached) = up deps e in
      let (db, counter, _, _, alive) = prepare_deps-Read s name pool first started in
      let (_, clock) = prepare_deps-IsClock s name pool first reads positive started in
      let few' : first.node.counter_lock + length inputs < 2 ^ 64 = rw counter few in
      rw (reached, sym counter) (read_loop-Runs w inputs first alive clock few')
