-- ===== src/ChatBot/Laws.antt =====
-- What the delegate keeps of the events, and whom it answers.
use paper_plane.Prelude.{
  ◌≡◌, ◌≢◌, refl, sym, ap, ◌∙◌, String, true, Option, none, some, List, [], ◌∷◌, ◌++◌, arith,
  append-nil, append_assoc, str_eq, eq_iff, if◌then◌else◌,
}
use paper_plane.Prelude.Dict.{Dict, lookup, insert, lookup-insert}
use paper_plane.Peers.{get_name}
use paper_plane.Platform.Chat.{Event, message_event, peer_event, Message, Peer, ChatManager}
use paper_plane.ChatBot.{
  ChatClient, Outside, said, on_event, on_events, answer, asks_to_explain, send, line_of,
}

abbrev pub messages_in : List Event → List Message
messages_in [] = []
messages_in (peer_event p ∷ es) = messages_in es
messages_in (message_event m ∷ es) = m ∷ messages_in es

-- The last peer of the id among the events, else the one from before.
abbrev pub latest : String → List Event → Option Peer → Option Peer
latest id [] before = before
latest id (peer_event p ∷ es) before = latest id es (if str_eq p.id id then some p else before)
latest id (message_event m ∷ es) before = latest id es before

module _ (o : Outside) where
  answer_keeps :
      (m : Message) (before : ChatManager) (c : ChatClient)
      → ((answer o m before c).messages ≡ c.messages) × ((answer o m before c).peers ≡ c.peers)
  unfolding answer
  answer_keeps m before c = ground arith

  -- After any events, the bot keeps their messages behind those that it had, in their order, and
  -- for each id the last peer of the events, or the one from before.
  pub on_events_lem :
      (es : List Event) (c : ChatClient) (id : String)
      → ((on_events o es c).messages ≡ c.messages ++ messages_in es)
        × (lookup id (on_events o es c).peers ≡ latest id es (lookup id c.peers))
  unfolding on_events on_event
  on_events_lem [] c id = (sym (append-nil c.messages), refl)
  on_events_lem (peer_event p ∷ es) c id =
      let (messages, peers) = on_events_lem es (record c { peers = insert p.id p c.peers }) id in
      (messages, peers ∙ ap (latest id es) (lookup-insert p.id id p c.peers))
  on_events_lem (message_event m ∷ es) c id =
      let shown = record c { shown = c.shown ++ line_of c m ∷ [] } in
      let (same_messages, same_peers) = answer_keeps m c.manager shown in
      let (messages, peers) = on_events_lem es (on_event o (message_event m) c) id in
      (
        messages
            ∙ ap (λ (l : List Message). (l ++ m ∷ []) ++ messages_in es) same_messages
            ∙ append_assoc c.messages (m ∷ []) (messages_in es),
        peers ∙ ap (λ (d : Dict Peer). latest id es (lookup id d)) same_peers,
      )

  -- The bug: when the node's own message comes back to the bot as an event, names no file and asks
  -- to explain, and its peer id is not the name of the node and not among the known peers, the bot
  -- sends its answer to it and shows it as one of an unknown sender.
  pub own_answered :
      (m : Message) (c : ChatClient)
      → m.file_id ≡ none
      → asks_to_explain m.text ≡ true
      → m.peer_id ≡ c.manager.local.id
      → c.manager.local.id ≢ get_name c.manager.local
      → lookup m.peer_id c.peers ≡ none
      → ((on_event o (message_event m) c).manager ≡ send o (some "will do!") none c.manager)
        × ((on_event o (message_event m) c).shown ≡ c.shown ++ said "Unknown" m.text ∷ [])
  unfolding on_event answer
  own_answered m c text asks own differs unknown =
      ground (arith, eq_iff m.peer_id (get_name c.manager.local))
