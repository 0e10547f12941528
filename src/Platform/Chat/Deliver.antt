-- ===== src/Platform/Chat/Deliver.antt =====
-- What `run_loop` hands to the delegate, and which files it asks for.
use paper_plane.Prelude.{
  ◌≡◌, refl, sym, ap, subst, ◌∙◌, String, Bool, ◌||◌, Option, none, some, List, [], ◌∷◌, ◌++◌,
  arith, contains, contains-append, append-nil, append_assoc, eq_iff, Option-cases, ◌⊎◌, inl, inr,
}
use paper_plane.Events.{ChatEvent, message, peer}
use paper_plane.Resolver.{ResolveWant, want_of, add_need_resolve}
use paper_plane.Platform.Chat.{
  ChatManager, Event, event_of, resolve_file, resolve_event, on_event, on_events, run_loop, give,
}

abbrev pub events_of : List ChatEvent → List Event
events_of [] = []
events_of (e ∷ es) = event_of e ∷ events_of es

-- The files of messages that have one and no path for it.
abbrev pub file_of : Option String → Option String → List String → List String
file_of none path rest = rest
file_of (some file_id) (some path) rest = rest
file_of (some file_id) none rest = file_id ∷ rest

abbrev pub missing : List ChatEvent → List String
missing [] = []
missing (message m ∷ es) = file_of m.file_id m.file_path (missing es)
missing (peer p ∷ es) = missing es

abbrev pub wants : List String → List ResolveWant
wants [] = []
wants (f ∷ fs) = want_of f ∷ wants fs

-- The files of one event, from its fields.
resolve_cases :
    (e : ChatEvent) (c : ChatManager)
    → ((missing (e ∷ []) ≡ []) × (resolve_event e c ≡ c))
      ⊎ ((f : String) × (peer_id : String) × (missing (e ∷ []) ≡ f ∷ [])
          × (resolve_event e c ≡ resolve_file f (some peer_id) c))
resolve_cases (peer p) c = inl (refl, refl)
resolve_cases (message m) c = elim (Option-cases m.file_id) [
  | inl no_file ↦ inl (ground arith)
  | inr (f, has) ↦ elim (Option-cases m.file_path) [
    | inl no_path ↦ inr (f, m.peer_id, ground arith, ground arith)
    | inr (path, known) ↦ inl (ground arith)
  ]
]

missing_cons :
    (e : ChatEvent) (es : List ChatEvent) → missing (e ∷ es) ≡ missing (e ∷ []) ++ missing es
missing_cons (peer p) es = refl
missing_cons (message m) es = ground arith

wants-append : (xs ys : List String) → wants (xs ++ ys) ≡ wants xs ++ wants ys
wants-append [] ys = refl
wants-append (x ∷ xs) ys = ap (λ (l : List ResolveWant). want_of x ∷ l) (wants-append xs ys)

gave :
    (e : Event) (c : ChatManager) {seen : List Event}
    → c.delegate ≡ some seen
    → give e c ≡ record c { delegate = some (seen ++ e ∷ []) }
gave e c h = ground arith

-- The delegate has the events, and the files are wanted and needed.
abbrev pub Handed : List Event → List String → ChatManager → List Event → ChatManager → Type 0
Handed events files c seen c' =
    (c'.delegate ≡ some (seen ++ events))
    × (c'.node.storage.to_resolve ≡ c.node.storage.to_resolve ++ wants files)
    × ((f : String)
        → contains c'.node.storage.need_resolve f
          ≡ (contains c.node.storage.need_resolve f || contains files f))

one_event :
    (e : ChatEvent) (c : ChatManager) {seen : List Event}
    → c.delegate ≡ some seen
    → Handed (event_of e ∷ []) (missing (e ∷ [])) c seen (on_event e c)
unfolding on_event resolve_file add_need_resolve
one_event e c {seen = seen} h = elim (resolve_cases e c) [
  | inl (nothing, same) ↦
      subst (Handed (event_of e ∷ []) (missing (e ∷ [])) c seen)
        (sym (ap (give (event_of e)) same ∙ gave (event_of e) c h))
        (
          refl,
          rw nothing (sym (append-nil c.node.storage.to_resolve)),
          λ f. rw nothing (ground arith),
        )
  | inr (f, peer_id, one, asked) ↦
      subst (Handed (event_of e ∷ []) (missing (e ∷ [])) c seen)
        (sym (ap (give (event_of e)) asked ∙ gave (event_of e) (resolve_file f (some peer_id) c) h))
        (refl, rw one refl, λ g. rw one (ground (arith, eq_iff f g)))
]

needed_cons :
    (e : ChatEvent) (es : List ChatEvent) (f : String) (before : Bool)
    → ((before || contains (missing (e ∷ [])) f) || contains (missing es) f)
      ≡ (before || contains (missing (e ∷ es)) f)
needed_cons e es f before =
    rw (missing_cons e es) (ground (arith, contains-append (missing (e ∷ [])) (missing es) f))

on_events_lem :
    (es : List ChatEvent) (c : ChatManager) {seen : List Event}
    → c.delegate ≡ some seen
    → Handed (events_of es) (missing es) c seen (on_events es c)
unfolding on_events
on_events_lem [] c {seen = seen} h = (
  h ∙ ap (λ (l : List Event). some l) (sym (append-nil seen)),
  sym (append-nil c.node.storage.to_resolve),
  λ f. ground arith,
)
on_events_lem (e ∷ es) c {seen = seen} h =
    let (given, wanted, needed) = one_event e c h in
    let (all_given, all_wanted, all_needed) = on_events_lem es (on_event e c) given in
    (
      all_given
          ∙ ap (λ (l : List Event). some l) (append_assoc seen (event_of e ∷ []) (events_of es)),
      all_wanted
          ∙ ap (λ (l : List ResolveWant). l ++ wants (missing es)) wanted
          ∙ append_assoc c.node.storage.to_resolve (wants (missing (e ∷ []))) (wants (missing es))
          ∙ ap (λ (l : List ResolveWant). c.node.storage.to_resolve ++ l)
              (sym (wants-append (missing (e ∷ [])) (missing es))
                ∙ sym (ap wants (missing_cons e es))),
      λ f.
          all_needed f
          ∙ ap (λ (b : Bool). b || contains (missing es) f) (needed f)
          ∙ needed_cons e es f (contains c.node.storage.need_resolve f),
    )

-- If a delegate is set, the loop gives it the events that wait, in their order; each message with a
-- file and no path for it puts a want for this file on the channel, and the files are needed then.
pub run_loop_lem :
    (c : ChatManager) (seen : List Event)
    → c.delegate ≡ some seen
    → let events = c.node.indexer.events in
      Handed (events_of events) (missing events) c seen (run_loop c)
unfolding run_loop
run_loop_lem c seen h = on_events_lem c.node.indexer.events _ h
