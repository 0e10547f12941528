-- ===== src/Console.antt =====
-- ChatLib/chat-arch/src/main.rs: the commands that are read from the console. A line is taken apart
-- into its words; what is printed is a reply.
pub mod Words
pub mod Laws
pub mod Session
use Prim.Native.String.{String, ◌++◌ as append}
use paper_plane.Prelude.{
  ℕ, Bool, true, false, ◌&&◌, Option, none, some, List, [], ◌∷◌, str_eq, if◌then◌else◌,
}
use paper_plane.Prelude.Dict.{insert}
use paper_plane.Prelude.Exec.{Result, ok, err}
use paper_plane.Models.{
  DbMessage, IndexedMessage, MessageBuilder, MessagePayload, Text, new, set_text, set_file_id,
  build,
}
use paper_plane.Files.{FileDescription}
use paper_plane.Files
use paper_plane.Index.{get_all_after_order_id}
use paper_plane.Resolver.{add_need_resolve}
use paper_plane.Node.{Node}
use paper_plane.Manager.{add_own_message}
use paper_plane.AppContext.{AppContext, DbPool, Start, prepare_deps}
use paper_plane.Console.Words.{split_whitespace, join, eq_ignore_ascii_case}

pub data Reply : Type 0 where
  nothing exiting usage unknown_command panicked : Reply
  message_added message_failed file_saved file_failed : Reply
  listed : List (Text × String) → Reply

-- The codec and the driver's reading of NULL.
pub record Codec : Type 0 where
  pub encode : MessagePayload → List ℕ
  pub decode : List ℕ → Option MessagePayload
  pub null : ℕ

-- A line as it is read, with the uuid and the time that its command draws.
pub record Input : Type 0 where
  pub line : String
  pub uuid : String
  pub now : ℕ

abbrev set_node : AppContext → Node → AppContext
set_node deps node = record deps { node = node }

lines_of : List IndexedMessage → List (Text × String)
lines_of [] = []
lines_of (m ∷ ms) = (m.order_id, m.text) ∷ lines_of ms

module _ (w : Codec) (i : Input) where
  pub add : (MessageBuilder → MessageBuilder) → AppContext → Reply × AppContext
  add fill deps =
      let message = build w.encode (fill (new i.uuid i.now deps.peer.id)) in
      let (added, node) = add_own_message w.null w.decode message deps.node in
      elim added [
        | ok m ↦ (message_added, set_node deps node)
        | err e ↦ (message_failed, set_node deps node)
      ]

  pub write : List String → AppContext → Reply × AppContext
  unfolding add
  write [] deps = (usage, deps)
  write (part ∷ parts) deps = add (λ b. set_text b (join (part ∷ parts))) deps

  pub file_save : List String → AppContext → Reply × AppContext
  file_save (file_id ∷ path ∷ []) deps =
      elim (Files.save deps.node.indexer.file_db
        (record { id = file_id; format = "txt"; local_path = path; timestamp = i.now })) [
          | err e ↦ (file_failed, deps)
          | ok db ↦ (
            file_saved,
            set_node deps
                (record (deps.node) { indexer = record (deps.node.indexer) { file_db = db } }),
          )
        ]
  file_save _ deps = (usage, deps)

  pub resolve : String → Option String → AppContext → Reply × AppContext
  resolve file_id peer_id deps = (
    nothing,
    set_node deps
        (record (deps.node) { storage = add_need_resolve file_id peer_id deps.node.storage }),
  )

  -- A peer is taken from a line of three words only.
  pub file_resolve : List String → AppContext → Reply × AppContext
  unfolding resolve
  file_resolve [] deps = (usage, deps)
  file_resolve (file_id ∷ peer_id ∷ []) deps = resolve file_id (some peer_id) deps
  file_resolve (file_id ∷ parts) deps = resolve file_id none deps

  pub file_msg : List String → AppContext → Reply × AppContext
  unfolding add
  file_msg (file_id ∷ []) deps = add (λ b. set_file_id b file_id) deps
  file_msg _ deps = (usage, deps)

  pub dial_add : List String → AppContext → Reply × AppContext
  dial_add (peer_id ∷ addr ∷ []) deps = (
    nothing,
    record deps { pool = record (deps.pool) { addrs = insert peer_id addr deps.pool.addrs } },
  )
  dial_add _ deps = (usage, deps)

  -- The messages are unwrapped.
  pub read_all : List String → AppContext → Reply × AppContext
  unfolding lines_of
  read_all [] deps = elim (get_all_after_order_id deps.node.indexer []) [
    | ok messages ↦ (listed (lines_of messages), deps)
    | err e ↦ (panicked, deps)
  ]
  read_all _ deps = (usage, deps)

  unfoldable pub run_command : String → List String → AppContext → Reply × AppContext
  unfolding write file_save file_resolve file_msg dial_add read_all
  run_command command parts deps =
      if str_eq command "write"
      then write parts deps
      else if str_eq command "file_save"
      then file_save parts deps
      else if str_eq command "file_resolve"
      then file_resolve parts deps
      else if str_eq command "file_msg"
      then file_msg parts deps
      else if str_eq command "dial_add"
      then dial_add parts deps
      else if str_eq command "read_all"
      then read_all parts deps
      else (unknown_command, deps)

  -- One round of the loop. A line is `exit` when this is its only word.
  unfoldable pub read_words : List String → AppContext → Reply × AppContext
  unfolding run_command
  read_words [] deps = (nothing, deps)
  read_words (command ∷ []) deps =
      if eq_ignore_ascii_case command "exit" then (exiting, deps) else run_command command [] deps
  read_words (command ∷ part ∷ parts) deps = run_command command (part ∷ parts) deps

-- A panic ends the loop too.
abbrev pub goes_on : Reply → Bool
goes_on exiting = false
goes_on panicked = false
goes_on _ = true

-- The state after the lines that were read so far. Unless the loop has ended by then, it waits for
-- the next line; at the end of the input it goes round for ever on empty lines, which change nothing.
unfoldable pub read_loop : Codec → List Input → AppContext → AppContext
unfolding read_words
read_loop w [] deps = deps
read_loop w (i ∷ inputs) deps =
    let (reply, deps') = read_words w i (split_whitespace i.line) deps in
    let rest = read_loop w inputs deps' in if goes_on reply then rest else deps'

-- The start and the loop of `server`, after the lines that were read so far. What the tasks do that
-- it spawns beside the loop, and that it waits for them after the loop, is not part of it.
unfoldable pub server : Start → Codec → String → List Input → DbPool → Result AppContext
server s w name inputs pool = elim (prepare_deps s name pool).0 [
  | err e ↦ err e
  | ok deps ↦ ok (read_loop w inputs deps)
]
