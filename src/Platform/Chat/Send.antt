-- ===== src/Platform/Chat/Send.antt =====
-- What a text that is sent comes to: the delegate is shown it.
use paper_plane.Prelude.{
  append_assoc, ℕ, ◌≡◌, refl, sym, ap, ◌∙◌, String, Option, none, some, List, [], ◌∷◌, ◌++◌, arith,
  inl, inr, eq_refl, subst,
}
use paper_plane.Prelude.Word.{add64}
use paper_plane.Prelude.Exec.{ok, Result-cases}
use paper_plane.Models.{
  DbMessage, MessagePayload, IndexedMessage, new, set_text, built_payload, build,
}
use paper_plane.Events.{ChatEvent, message}
use paper_plane.Index.{Indexer, index_message, file_path}
use paper_plane.Index.Laws.{index_message_ok, Indexes}
use paper_plane.Index.OrderId.{order_id}
use paper_plane.Node.{Node, set_counter}
use paper_plane.Repository.{save_message}
use paper_plane.Repository.Save.Cases.{numbered}
use paper_plane.Repository.Save.Published.{save_message_indexes}
use paper_plane.Manager.{get_or_create_repository, add_own_message}
use paper_plane.Manager.Clock.{ticked, ordered}
use paper_plane.Platform.Chat.{
  ChatManager, Event, Message, message_of, event_of, message_event, send_message, run_loop, filled,
  add_built,
}
use paper_plane.Platform.Chat.Deliver.{run_loop_lem, events_of}

events_of-append :
    (es : List ChatEvent) (x : IndexedMessage)
    → events_of (es ++ message x ∷ []) ≡ events_of es ++ message_event (message_of x) ∷ []
events_of-append [] x = refl
events_of-append (e ∷ es) x = ap (λ (l : List Event). event_of e ∷ l) (events_of-append es x)

created_indexer :
    (null : ℕ) (id : String) (n : Node) → (get_or_create_repository null id n).1.indexer ≡ n.indexer
unfolding get_or_create_repository set_counter
created_indexer null id n = ground arith

-- What is shown of a text.
abbrev pub shown : String → String → ChatManager → Message
shown id text c = record {
  order = order_id (add64 c.node.counter_lock 1) c.local.id;
  id = id;
  text = text;
  file_id = none;
  file_path = none;
  peer_id = c.local.id;
}

-- The payload of a text.
abbrev pub text_payload : String → MessagePayload
text_payload text = record { text = text; file_id = ""; reply_id = ""; mentions = [] }

module _ (encode : MessagePayload → List ℕ) (decode : List ℕ → Option MessagePayload)
    (null : ℕ) where
  -- The node in whose repository an own message is saved.
  abbrev opened : DbMessage → Node → Node
  opened m n = (get_or_create_repository null m.peer_id (ticked n)).1

  add_own_ok :
      (m m' : DbMessage) (n : Node)
      → (add_own_message null decode m n).0 ≡ ok m'
      → ((save_message decode m.peer_id (ordered m n) (opened m n)).0 ≡ ok tt)
        × ((add_own_message null decode m n).1
            ≡ (save_message decode m.peer_id (ordered m n) (opened m n)).1)
  unfolding add_own_message
  add_own_ok m m' n e = ground arith

  add_own_indexes :
      (m m' : DbMessage) (n : Node)
      → m.counter ≡ 0
      → (add_own_message null decode m n).0 ≡ ok m'
      → index_message decode (numbered decode m.peer_id (ordered m n) (opened m n)) n.indexer
        ≡ (ok tt, (add_own_message null decode m n).1.indexer)
  add_own_indexes m m' n own e =
      let (saved, state) = add_own_ok m m' n e in
      let indexes =
        save_message_indexes decode m.peer_id (ordered m n) (opened m n) (eq_refl m.peer_id) own
          saved in
      ap (index_message decode (numbered decode m.peer_id (ordered m n) (opened m n)))
        (sym (created_indexer null m.peer_id (ticked n)))
      ∙ indexes
      ∙ ap (λ (k : Node). (ok tt, k.indexer)) (sym state)

  -- The message that `send_message` builds of a text.
  abbrev text_message : String → ℕ → String → String → DbMessage
  text_message id now peer_id text = build encode (set_text (new id now peer_id) text)

  -- The event of an indexed message is that of its text.
  indexed_event :
      (id text : String) (now : ℕ) (c : ChatManager) (x : IndexedMessage) (s : Indexer)
      → decode (encode (text_payload text)) ≡ some (text_payload text)
      → Indexes decode
          (numbered decode c.local.id
            (ordered (text_message id now c.local.id text) c.node)
            (opened (text_message id now c.local.id text) c.node))
          x
          s
      → message_of x ≡ shown id text c
  unfolding build set_text new built_payload
  indexed_event id text now c x s codec (payload, path, decoded, known, made) =
      let b = set_text (new id now c.local.id) text in
      let payload_same : payload ≡ built_payload b = ground arith in
      let no_file : payload.file_id ≡ "" = ap (λ (p : MessagePayload). p.file_id) payload_same in
      let found : ok none ≡ ok path =
        subst (λ (f : String). file_path s.file_db f ≡ ok path) no_file known in
      let no_path : path ≡ none = ground arith in
      ap message_of made ∙ rw (payload_same, no_path) refl

  send_ok :
      (id text : String) (now : ℕ) (file_id : Option String) (c : ChatManager)
      → (send_message encode decode null id now (some text) file_id c).0 ≡ ok tt
      → (m' : DbMessage) × ((add_own_message null decode
            (text_message id now c.local.id text)
            c.node).0
          ≡ ok m')
        × ((send_message encode decode null id now (some text) file_id c).1 ≡ record c {
          node = (add_own_message null decode (text_message id now c.local.id text) c.node).1;
        })
  unfolding send_message filled add_built
  send_ok id text now file_id c e =
      elim (Result-cases
        (add_own_message null decode (text_message id now c.local.id text) c.node).0) [
          | inl (m', added) ↦ (m', added, ground arith)
          | inr (x, failed) ↦ absurd (ground arith)
        ]

  sent_event :
      (id text : String) (now : ℕ) (file_id : Option String) (c : ChatManager)
      → decode (encode (text_payload text)) ≡ some (text_payload text)
      → (send_message encode decode null id now (some text) file_id c).0 ≡ ok tt
      → let c' = (send_message encode decode null id now (some text) file_id c).1 in
        (x : IndexedMessage) × (c'.node.indexer.events ≡ c.node.indexer.events ++ message x ∷ [])
        × (message_of x ≡ shown id text c)
        × (c'.delegate ≡ c.delegate)
  unfolding build new set_text
  sent_event id text now file_id c codec e =
      let m = text_message id now c.local.id text in
      let (m', added, became) = send_ok id text now file_id c e in
      let indexes = add_own_indexes m m' c.node refl added in
      let (x, is_of, row, events, files) = index_message_ok decode _ c.node.indexer _ indexes in
      (
        x,
        ap (λ (k : ChatManager). k.node.indexer.events) became ∙ events,
        indexed_event id text now c x c.node.indexer codec is_of,
        ap (λ (k : ChatManager). k.delegate) became,
      )

  -- If the codec decodes the payload of the text to what it was encoded from, a delegate is set
  -- and a text is sent without an error, the loop then gives the delegate all events that were
  -- waiting and behind them the message: the text under the new id and the node's own peer id,
  -- with the order id of the next order, and no file.
  pub run_loop-send_message :
      (id text : String) (now : ℕ) (file_id : Option String) (c : ChatManager) (seen : List Event)
      → decode (encode (text_payload text)) ≡ some (text_payload text)
      → c.delegate ≡ some seen
      → (send_message encode decode null id now (some text) file_id c).0 ≡ ok tt
      → (run_loop (send_message encode decode null id now (some text) file_id c).1).delegate
        ≡ some ((seen ++ events_of c.node.indexer.events) ++ message_event (shown id text c) ∷ [])
  run_loop-send_message id text now file_id c seen codec set e =
      let (x, events, is_shown, delegate) = sent_event id text now file_id c codec e in
      let (given, _, _) =
        run_loop_lem (send_message encode decode null id now (some text) file_id c).1 seen
          (delegate ∙ set) in
      given
      ∙ ap (λ (l : List Event). some l)
          (ap (λ (l : List ChatEvent). seen ++ events_of l) events
            ∙ ap (λ (l : List Event). seen ++ l) (events_of-append c.node.indexer.events x)
            ∙ sym (
                append_assoc seen (events_of c.node.indexer.events)
                  (message_event (message_of x) ∷ []))
            ∙ ap
                (λ (m : Message). (seen ++ events_of c.node.indexer.events) ++ message_event m ∷ [])
                is_shown)
