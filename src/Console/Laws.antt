-- ===== src/Console/Laws.antt =====
-- Whatever is read from the console, the order counter stays a clock.
use paper_plane.Prelude.{
  ℕ, ◌+◌, ◌^◌, ◌≤◌, ◌<◌, ◌≡◌, refl, ◌∙◌, String, Bool, true, false, List, [], ◌∷◌, length, arith,
  str_eq, if◌then◌else◌,
}
use paper_plane.Models.{MessageBuilder, new, build, set_text, set_file_id}
use paper_plane.Node.{Node}
use paper_plane.Manager.{add_own_message}
use paper_plane.Manager.Clock.{IsClock}
use paper_plane.Manager.Running.{Runs, add_own_message-Runs}
use paper_plane.AppContext.{AppContext}
use paper_plane.Console.Words.{join, split_whitespace, eq_ignore_ascii_case}
use paper_plane.Console.{
  exiting, unknown_command, Reply, Codec, Input, add, write, file_save, resolve, file_resolve,
  file_msg, dial_add, read_all, run_command, read_words, goes_on, read_loop,
}

-- Nothing that the clock depends on has changed.
SameClock : Node → Node → Type 0
SameClock n n' =
    (n'.db ≡ n.db) × (n'.counter_lock ≡ n.counter_lock) × (n'.manager_alive ≡ n.manager_alive)

module _ (w : Codec) (i : Input) (deps : AppContext) where
  Kept : Reply × AppContext → Type 0
  Kept (reply, deps') = Runs (deps.node.counter_lock + 1) deps'.node

  -- The manager is alive, the counter a clock, and may be raised by one.
  abbrev Ready : Type 0
  Ready =
      (deps.node.manager_alive ≡ true) × IsClock deps.node × (deps.node.counter_lock + 1 < 2 ^ 64)

  add_node :
      (fill : MessageBuilder → MessageBuilder)
      → (add w i fill deps).1.node
        ≡ (add_own_message w.null w.decode
            (build w.encode (fill (new i.uuid i.now deps.peer.id)))
            deps.node).1
  unfolding add
  add_node fill = ground arith

  add-Kept : (fill : MessageBuilder → MessageBuilder) → Ready → Kept (add w i fill deps)
  unfolding Kept
  add-Kept fill (alive, clock, few) =
      rw (add_node fill) (add_own_message-Runs w.decode w.null _ deps.node alive clock few)

  same-Kept : (r : Reply × AppContext) → Ready → SameClock deps.node r.1.node → Kept r
  unfolding SameClock Kept
  same-Kept (reply, deps') (alive, clock, few) (db, lock, manager) =
      (rw (db, lock) clock, manager ∙ alive, omega (arith, lock))

  stays-Kept : (reply : Reply) → Ready → Kept (reply, deps)
  unfolding SameClock
  stays-Kept reply h = same-Kept (reply, deps) h (refl, refl, refl)

  write-Kept : (parts : List String) → Ready → Kept (write w i parts deps)
  unfolding write
  write-Kept [] h = stays-Kept _ h
  write-Kept (part ∷ parts) h = add-Kept (λ b. set_text b (join (part ∷ parts))) h

  file_msg-Kept : (parts : List String) → Ready → Kept (file_msg w i parts deps)
  unfolding file_msg
  file_msg-Kept [] h = stays-Kept _ h
  file_msg-Kept (part ∷ []) h = add-Kept (λ b. set_file_id b part) h
  file_msg-Kept (part ∷ more ∷ parts) h = stays-Kept _ h

  file_save_same : (parts : List String) → SameClock deps.node (file_save w i parts deps).1.node
  unfolding file_save SameClock
  file_save_same [] = (refl, refl, refl)
  file_save_same (part ∷ []) = (refl, refl, refl)
  file_save_same (part ∷ path ∷ []) = ground arith
  file_save_same (part ∷ path ∷ more ∷ parts) = (refl, refl, refl)

  file_resolve_same :
      (parts : List String) → SameClock deps.node (file_resolve w i parts deps).1.node
  unfolding file_resolve resolve SameClock
  file_resolve_same [] = (refl, refl, refl)
  file_resolve_same (part ∷ []) = (refl, refl, refl)
  file_resolve_same (part ∷ peer_id ∷ []) = (refl, refl, refl)
  file_resolve_same (part ∷ peer_id ∷ more ∷ parts) = (refl, refl, refl)

  dial_add_same : (parts : List String) → SameClock deps.node (dial_add w i parts deps).1.node
  unfolding dial_add SameClock
  dial_add_same [] = (refl, refl, refl)
  dial_add_same (part ∷ []) = (refl, refl, refl)
  dial_add_same (part ∷ addr ∷ []) = (refl, refl, refl)
  dial_add_same (part ∷ addr ∷ more ∷ parts) = (refl, refl, refl)

  read_all_same : (parts : List String) → SameClock deps.node (read_all w i parts deps).1.node
  unfolding read_all SameClock
  read_all_same [] = ground arith
  read_all_same (part ∷ parts) = (refl, refl, refl)

  if-Kept : (b : Bool) (r s : Reply × AppContext) → Kept r → Kept s → Kept (if b then r else s)
  if-Kept true r s hr hs = hr
  if-Kept false r s hr hs = hs

  run_command-Kept :
      (command : String) (parts : List String) → Ready → Kept (run_command w i command parts deps)
  unfolding run_command
  run_command-Kept command parts h =
      if-Kept (str_eq command "write") (write w i parts deps) _ (write-Kept parts h) (
        if-Kept (str_eq command "file_save") (file_save w i parts deps) _
          (same-Kept (file_save w i parts deps) h (file_save_same parts))
          (if-Kept (str_eq command "file_resolve") (file_resolve w i parts deps) _
            (same-Kept (file_resolve w i parts deps) h (file_resolve_same parts))
            (if-Kept (str_eq command "file_msg") (file_msg w i parts deps) _ (file_msg-Kept parts h)
              (if-Kept (str_eq command "dial_add") (dial_add w i parts deps) _
                (same-Kept (dial_add w i parts deps) h (dial_add_same parts))
                (if-Kept (str_eq command "read_all") (read_all w i parts deps) _
                  (same-Kept (read_all w i parts deps) h (read_all_same parts))
                  (stays-Kept unknown_command h))))))

  read_words-Kept : (words : List String) → Ready → Kept (read_words w i words deps)
  unfolding read_words
  read_words-Kept [] h = stays-Kept _ h
  read_words-Kept (command ∷ []) h =
      if-Kept (eq_ignore_ascii_case command "exit") (exiting, deps)
        (run_command w i command [] deps) (stays-Kept exiting h) (run_command-Kept command [] h)
  read_words-Kept (command ∷ part ∷ parts) h = run_command-Kept command (part ∷ parts) h

kept :
    (w : Codec) (i : Input) (deps : AppContext) (r : Reply × AppContext)
    → Kept w i deps r
    → Runs (deps.node.counter_lock + 1) r.1.node
unfolding Kept
kept w i deps r h = h

Runs-mono : (c d : ℕ) (n : Node) → c ≤ d → Runs c n → Runs d n
Runs-mono c d n le (clock, alive, low) = (clock, alive, omega arith)

if-Runs :
    (c : ℕ) (b : Bool) (x y : AppContext)
    → Runs c x.node
    → Runs c y.node
    → Runs c (if b then x else y).node
if-Runs c true x y hx hy = hx
if-Runs c false x y hx hy = hy

-- Whatever is read from the console, if the manager is alive, the order counter is at least the
-- order of every row, and one more for each line does not overflow it, then the manager stays
-- alive, the counter is again at least the order of every row, and it has grown by at most the
-- number of lines.
pub read_loop-Runs :
    (w : Codec) (inputs : List Input) (deps : AppContext)
    → deps.node.manager_alive ≡ true
    → IsClock deps.node
    → deps.node.counter_lock + length inputs < 2 ^ 64
    → Runs (deps.node.counter_lock + length inputs) (read_loop w inputs deps).node
unfolding read_loop
read_loop-Runs w [] deps alive clock few = (clock, alive, omega arith)
read_loop-Runs w (i ∷ inputs) deps alive clock few =
    let r = read_words w i (split_whitespace i.line) deps in
    let (clock', alive', low) =
      kept w i deps _
        (read_words-Kept w i deps (split_whitespace i.line) (alive, clock, omega arith)) in
    let total = deps.node.counter_lock + length (i ∷ inputs) in
    let later = read_loop-Runs w inputs r.1 alive' clock' (omega (arith, low)) in
    if-Runs total (goes_on r.0) (read_loop w inputs r.1) r.1
      (Runs-mono _ total (read_loop w inputs r.1).node (omega (arith, low)) later)
      (Runs-mono _ total r.1.node (omega arith) (clock', alive', low))
