-- ===== src/ChatBot.antt =====
-- ChatLib/chat-bot/src/main.rs: a client on the console. What it shows of events and messages is a
-- list of lines; its other output is not modelled. The mDNS daemon gives what is discovered.
pub mod Laws
pub mod Discovery
use Prim.Native.Char.{code}
use Prim.Native.String.{String, slice, len, ◌++◌ as append}
use text.Mathlib.Text.{starts_with}
use paper_plane.Prelude.{
  ℕ, zero, suc, ◌+◌, Bool, true, false, not, ◌&&◌, ◌||◌, Option, none, some, List, [], ◌∷◌, ◌++◌,
  str_eq, ltb, ◌==◌, if◌then◌else◌,
}
use paper_plane.Prelude.Dict.{Dict, lookup, insert}
use paper_plane.Prelude.Exec.{Result, ok, err}
use paper_plane.Models.{MessagePayload, Text}
use paper_plane.Index.OrderId.{codes}
use paper_plane.Peers.{Keys, get_name}
use paper_plane.Platform.Chat.{
  ChatManager, Event, message_event, peer_event, Message, Peer, get_peers, get_all_messages,
  send_message, set_file_path,
}

-- The manager is shared with the delegate; `shown` are the lines about messages.
pub data Line : Type 0 where
  said : (sender text : String) → Line
  sent_file : (sender : String) (path : Option String) → Line

pub record ChatClient : Type 0 where
  pub manager : ChatManager
  pub peers : Dict Peer
  pub messages : List Message
  pub shown : List Line

-- The codec, the driver's reading of NULL, and what is drawn: the id of a message,
-- the id of a file, and the time.
pub record Outside : Type 0 where
  pub encode : MessagePayload → List ℕ
  pub decode : List ℕ → Option MessagePayload
  pub null : ℕ
  pub id : String
  pub file_id : String
  pub now : ℕ

abbrev pub by_id : Dict Peer → List Peer → Dict Peer
by_id known [] = known
by_id known (p ∷ ps) = by_id (insert p.id p known) ps

-- `ChatClient::new`, over a manager.
unfoldable pub new_client : Keys → ChatManager → Result ChatClient
new_client k c = elim (get_peers k c) [
  | err e ↦ err e
  | ok peers ↦ elim (get_all_messages c) [
    | err e ↦ err e
    | ok messages ↦
        ok (record { manager = c; peers = by_id [] peers; messages = messages; shown = [] })
  ]
]

-- The name that a message is shown under. It is compared with the name of the node.
abbrev pub sender_name : ChatClient → String → String
sender_name c peer_id = elim (lookup peer_id c.peers) [
  | some p ↦ p.name
  | none ↦ if str_eq peer_id (get_name c.manager.local) then "You" else "Unknown"
]

abbrev pub line_of : ChatClient → Message → Line
line_of c m = elim m.file_id [
  | some file_id ↦ sent_file (sender_name c m.peer_id) m.file_path
  | none ↦ said (sender_name c m.peer_id) m.text
]

-- `to_lowercase`, as far as it matters to a word of ASCII letters.
abbrev lower : ℕ → ℕ
lower c = if ltb 64 c && ltb c 91 then c + 32 else c

abbrev lowercase : Text → Text
lowercase [] = []
lowercase (c ∷ cs) = lower c ∷ lowercase cs

abbrev begins : Text → Text → Bool
begins [] text = true
begins (w ∷ ws) [] = false
begins (w ∷ ws) (c ∷ cs) = w == c && begins ws cs

-- `contains` of a word.
contains_word : Text → Text → Bool
contains_word word [] = begins word []
contains_word word (c ∷ cs) = begins word (c ∷ cs) || contains_word word cs

unfoldable pub asks_to_explain : String → Bool
unfolding contains_word
asks_to_explain text = contains_word (codes "explain") (lowercase (codes text))

-- The text is answered by the delegate.
abbrev pub wants_answer : ChatClient → Message → Bool
wants_answer c m = elim m.file_id [
  | some file_id ↦ false
  | none ↦ asks_to_explain m.text && not (str_eq m.peer_id (get_name c.manager.local))
]

module _ (o : Outside) where
  -- The manager after a message was sent or not; the result is only printed.
  abbrev pub send : Option String → Option String → ChatManager → ChatManager
  send text file_id m = (send_message o.encode o.decode o.null o.id o.now text file_id m).1

  pub answer : Message → ChatManager → ChatClient → ChatClient
  answer m before c =
      if wants_answer c m then record c { manager = send (some "will do!") none before } else c

  -- `ChatClientDelegate::on_event`
  unfoldable pub on_event : Event → ChatClient → ChatClient
  unfolding answer
  on_event (peer_event p) c = record c { peers = insert p.id p c.peers }
  on_event (message_event m) c =
      let answered = answer m c.manager (record c { shown = c.shown ++ line_of c m ∷ [] }) in
      record answered { messages = answered.messages ++ m ∷ [] }

  unfoldable pub on_events : List Event → ChatClient → ChatClient
  unfolding on_event
  on_events [] c = c
  on_events (e ∷ es) c = on_events es (on_event e c)

  lines_of : ChatClient → List Message → List Line
  lines_of c [] = []
  lines_of c (m ∷ ms) = line_of c m ∷ lines_of c ms

  -- Whether there is a dot, and what stands behind the last one.
  last_part : String → Bool × String
  last_part String.[] = (false, "")
  last_part (String.◌∷◌ c s) =
      let (dotted, part) = last_part s in
      if dotted || code c == 46 then (true, part) else (false, String.◌∷◌ c part)

  -- The file is given its path, then its message is sent.
  send_file : String → ChatManager → ChatManager
  unfolding last_part
  send_file file_path m =
      let (saved, m') = set_file_path o.now o.file_id (last_part file_path).1 file_path m in
      elim saved [ ok u ↦ send none (some o.file_id) m' | err e ↦ m' ]

  rest_of : String → String
  rest_of cmd = slice cmd 5 (len cmd)

  -- A trimmed line of `console_loop`; `none` leaves the loop.
  unfoldable pub console_line : String → ChatClient → Option ChatClient
  unfolding lines_of send_file rest_of
  console_line input c =
      if str_eq input "exit"
      then none
      else if str_eq input "messages"
      then some (record c { shown = c.shown ++ lines_of c c.messages })
      else if starts_with input "send "
      then (if str_eq (rest_of input) ""
          then some c
          else some (record c { manager = send (some (rest_of input)) none c.manager }))
      else if starts_with input "file "
      then (if str_eq (rest_of input) ""
          then some c
          else some (record c { manager = send_file (rest_of input) c.manager }))
      else some c
