-- ===== src/Requests/Workers/Laws.antt =====
-- What the workers come to, whatever happens and in whatever order.
use paper_plane.Prelude.{
  ℕ, zero, suc, ◌+◌, ◌<◌, ◌≡◌, refl, sym, ap, subst, ◌∙◌, Bool, some, List, [], ◌∷◌, ◌++◌, length,
  length-append, arith, append_assoc, append-nil, if◌then◌else◌, ◌⊎◌, inl, inr, Option-cases,
}
use paper_plane.Requests.{Task}
use paper_plane.Requests.Workers.{
  Ending, Workers, idle, Event, enqueued, taken, ends, get_elem?, erase, receive, finish,
  worker_loop, work,
}

abbrev pub all_enqueued : List Event → List Task
all_enqueued [] = []
all_enqueued (enqueued t ∷ es) = t ∷ all_enqueued es
all_enqueued (taken ∷ es) = all_enqueued es
all_enqueued (ends i ending ∷ es) = all_enqueued es

abbrev pub count : (Task → Bool) → List Task → ℕ
count p [] = 0
count p (t ∷ ts) = if p t then suc (count p ts) else count p ts

abbrev pub tasks : List (Task × Ending) → List Task
tasks [] = []
tasks ((t, ending) ∷ es) = t ∷ tasks es

count-append : (p : Task → Bool) (xs ys : List Task) → count p (xs ++ ys) ≡ count p xs + count p ys
count-append p [] ys = omega arith
count-append p (x ∷ xs) ys = ground (arith, count-append p xs ys)

tasks-append :
    (es : List (Task × Ending)) (t : Task) (ending : Ending)
    → tasks (es ++ (t, ending) ∷ []) ≡ tasks es ++ t ∷ []
tasks-append [] t ending = refl
tasks-append ((u, x) ∷ es) t ending = ap (λ (l : List Task). u ∷ l) (tasks-append es t ending)

count-erase :
    (p : Task → Bool) (ts : List Task) (i : ℕ) (t : Task)
    → get_elem? ts i ≡ some t
    → count p ts ≡ count p (t ∷ []) + count p (erase ts i)
count-erase p [] i t h = absurd (ground arith)
count-erase p (x ∷ xs) zero t h = ground arith
count-erase p (x ∷ xs) (suc i) t h = ground (arith, count-erase p xs i t h)

enqueued_cons :
    (e : Event) (es : List Event) → all_enqueued (e ∷ []) ++ all_enqueued es ≡ all_enqueued (e ∷ es)
enqueued_cons (enqueued t) es = refl
enqueued_cons taken es = refl
enqueued_cons (ends i ending) es = refl

length-erase :
    (ts : List Task) (i : ℕ) (t : Task)
    → get_elem? ts i ≡ some t
    → length ts ≡ suc (length (erase ts i))
length-erase [] i t h = absurd (ground arith)
length-erase (x ∷ xs) zero t h = refl
length-erase (x ∷ xs) (suc i) t h = omega (arith, length-erase xs i t h)

queue_cases : (q : List Task) → (q ≡ []) ⊎ ((t : Task) × (ts : List Task) × (q ≡ t ∷ ts))
queue_cases [] = inl refl
queue_cases (t ∷ ts) = inr (t, ts, refl)

-- As many workers as there are wait or are busy.
abbrev pub Free : ℕ → Workers → Type 0
Free worker_count w = w.waiting + length w.running ≡ worker_count

-- What a task has come to, for any test of tasks.
abbrev pub Conserves : (Task → Bool) → Workers → Type 0
Conserves p w = count p w.started ≡ count p w.running + count p (tasks w.ended)

receive_cases :
    (n : ℕ) (queue : List Task) (w : Workers)
    → (receive n queue w ≡ w)
      ⊎ ((m : ℕ) × (t : Task) × (ts : List Task) × (n ≡ suc m)
          × (queue ≡ t ∷ ts)
          × (receive n queue w ≡ record w {
            queue = ts;
            waiting = m;
            running = w.running ++ t ∷ [];
            started = w.started ++ t ∷ [];
          }))
unfolding receive
receive_cases zero queue w = inl refl
receive_cases (suc n) [] w = inl refl
receive_cases (suc n) (t ∷ ts) w = inr (n, t, ts, refl, refl, refl)

loop_in_order :
    (e : Event) (w : Workers)
    → let w' = worker_loop e w in
      w'.started ++ w'.queue ≡ (w.started ++ w.queue) ++ all_enqueued (e ∷ [])
unfolding worker_loop finish
loop_in_order (enqueued t) w = ground (arith, append_assoc w.started w.queue (t ∷ []))
loop_in_order taken w = elim (receive_cases w.waiting w.queue w) [
  | inl same ↦ rw (same, append-nil (w.started ++ w.queue)) refl
  | inr (m, t, ts, some_waits, e, became) ↦
      rw (became, e, append-nil (w.started ++ t ∷ ts)) (append_assoc w.started (t ∷ []) ts)
]
loop_in_order (ends i ending) w = elim (Option-cases (get_elem? w.running i)) [
  | inl nothing ↦ rw (nothing, append-nil (w.started ++ w.queue)) refl
  | inr (t, has) ↦ rw (has, append-nil (w.started ++ w.queue)) refl
]

loop-Conserves :
    (p : Task → Bool) (e : Event) (w : Workers) → Conserves p w → Conserves p (worker_loop e w)
unfolding worker_loop finish
loop-Conserves p (enqueued t) w h = h
loop-Conserves p taken w h = elim (receive_cases w.waiting w.queue w) [
  | inl same ↦ rw same h
  | inr (m, t, ts, some_waits, e, became) ↦
      rw became
        (ground (arith, count-append p w.started (t ∷ []), count-append p w.running (t ∷ [])))
]
loop-Conserves p (ends i ending) w h = elim (Option-cases (get_elem? w.running i)) [
  | inl nothing ↦ ground arith
  | inr (t, has) ↦ ground (
    arith,
    count-erase p w.running i t has,
    tasks-append w.ended t ending,
    count-append p (tasks w.ended) (t ∷ []),
  )
]

loop-Free : (n : ℕ) (e : Event) (w : Workers) → Free n w → Free n (worker_loop e w)
unfolding worker_loop finish
loop-Free n (enqueued t) w h = h
loop-Free n taken w h = elim (receive_cases w.waiting w.queue w) [
  | inl same ↦ rw same h
  | inr (m, t, ts, some_waits, e, became) ↦
      rw became (omega (arith, h, some_waits, length-append w.running (t ∷ [])))
]
loop-Free n (ends i ending) w h = elim (Option-cases (get_elem? w.running i)) [
  | inl nothing ↦ ground arith
  | inr (t, has) ↦ ground (arith, length-erase w.running i t has)
]

in_order :
    (es : List Event) (w : Workers)
    → let w' = work es w in w'.started ++ w'.queue ≡ (w.started ++ w.queue) ++ all_enqueued es
unfolding work
in_order [] w = sym (append-nil (w.started ++ w.queue))
in_order (e ∷ es) w =
    let rest = in_order es (worker_loop e w) in
    rest
    ∙ ap (λ (l : List Task). l ++ all_enqueued es) (loop_in_order e w)
    ∙ append_assoc (w.started ++ w.queue) (all_enqueued (e ∷ [])) (all_enqueued es)
    ∙ ap (λ (l : List Task). (w.started ++ w.queue) ++ l) (enqueued_cons e es)

-- What each event keeps, any events keep.
kept :
    (P : Workers → Type 0)
    → ((e : Event) (w : Workers) → P w → P (worker_loop e w))
    → (es : List Event) (w : Workers) → P w
    → P (work es w)
unfolding work
kept P one [] w h = h
kept P one (e ∷ es) w h = kept P one es (worker_loop e w) (one e w h)

work-append : (es fs : List Event) (w : Workers) → work (es ++ fs) w ≡ work fs (work es w)
unfolding work
work-append [] fs w = refl
work-append (e ∷ es) fs w = work-append es fs (worker_loop e w)

-- The tasks that run end, then each of the queue is taken and ends.
abbrev pub all_end : List Task → (List Task → Ending) → List Event
all_end [] ending = []
all_end (t ∷ ts) ending = ends 0 (ending (t ∷ ts)) ∷ all_end ts ending

abbrev pub all_served : List Task → (List Task → Ending) → List Event
all_served [] ending = []
all_served (t ∷ ts) ending = taken ∷ ends 0 (ending (t ∷ ts)) ∷ all_served ts ending

abbrev busy : ℕ → List Task → List Task → List Task → List (Task × Ending) → Workers
busy n queue running started ended = record {
  queue = queue;
  waiting = n;
  running = running;
  started = started;
  ended = ended;
}

-- No task runs or waits, and these were started.
abbrev pub Drained : List Task → Workers → Type 0
Drained started w = (w.running ≡ []) × (w.queue ≡ []) × (w.started ≡ started)

running_end :
    (ending : List Task → Ending) (n : ℕ) (queue running started : List Task)
    (ended : List (Task × Ending))
    → (m : ℕ) × (ended' : List (Task × Ending)) × (work
          (all_end running ending)
          (busy n queue running started ended)
        ≡ busy m queue [] started ended')
unfolding work worker_loop finish
running_end ending n queue [] started ended = (n, ended, refl)
running_end ending n queue (t ∷ ts) started ended =
    running_end ending (suc n) queue ts started (ended ++ (t, ending (t ∷ ts)) ∷ [])

queue_served :
    (ending : List Task → Ending) (n : ℕ) (queue started : List Task) (ended : List (Task × Ending))
    → Drained
        (started ++ queue)
        (work (all_served queue ending) (busy (suc n) queue [] started ended))
unfolding work worker_loop receive finish
queue_served ending n [] started ended = (refl, refl, sym (append-nil started))
queue_served ending n (t ∷ ts) started ended =
    let (running, queue, all) =
      queue_served ending n ts (started ++ t ∷ []) (ended ++ (t, ending (t ∷ ts)) ∷ []) in
    (running, queue, all ∙ append_assoc started (t ∷ []) ts)

waiting_served :
    (ending : List Task → Ending) (n : ℕ) (queue started : List Task) (ended : List (Task × Ending))
    → 0 < n
    → Drained (started ++ queue) (work (all_served queue ending) (busy n queue [] started ended))
waiting_served ending zero queue started ended some_waits = absurd (omega arith)
waiting_served ending (suc n) queue started ended some_waits =
    queue_served ending n queue started ended

-- What runs and what waits is served.
abbrev pub rest_of : Workers → (List Task → Ending) → List Event
rest_of w ending = all_end w.running ending ++ all_served w.queue ending

drains :
    (ending : List Task → Ending) (n : ℕ) (w : Workers)
    → 0 < n
    → Free n w
    → Drained (w.started ++ w.queue) (work (rest_of w ending) w)
drains ending n w some_worker free =
    let (m, ended, became) = running_end ending w.waiting w.queue w.running w.started w.ended in
    let again : m + 0 ≡ n =
      subst (Free n) became (kept (Free n) (loop-Free n) (all_end w.running ending) w free) in
    subst (Drained (w.started ++ w.queue))
      (sym (
        work-append (all_end w.running ending) (all_served w.queue ending) w
        ∙ ap (work (all_served w.queue ending)) became))
      (waiting_served ending m w.queue w.started ended (omega (arith, again, some_worker)))

module _ (worker_count : ℕ) where
  -- Whatever happens to a queue with one worker or more, in any order, the tasks that were started
  -- and those that wait are together the tasks that were enqueued, in this order; every worker
  -- waits or runs one task; and by every test of tasks, as many of those that were started pass it
  -- as of those that run and those that have ended together. From there, if only the tasks that
  -- run end, and those of the queue are taken and end one after the other, each with success, with
  -- an error or timed out, then no task runs or waits any more, every worker waits again, and by
  -- every test as many tasks have ended as were enqueued.
  pub work_lem :
      (es : List Event) (ending : List Task → Ending) (p : Task → Bool)
      → 0 < worker_count
      → let w = work es (idle worker_count) in
        let last = work (rest_of w ending) w in
        (w.started ++ w.queue ≡ all_enqueued es)
        × (w.waiting + length w.running ≡ worker_count)
        × (count p w.started ≡ count p w.running + count p (tasks w.ended))
        × (last.running ≡ [])
        × (last.queue ≡ [])
        × (last.waiting ≡ worker_count)
        × (count p (tasks last.ended) ≡ count p (all_enqueued es))
  work_lem es ending p some_worker =
      let w = work es (idle worker_count) in
      let last = work (rest_of w ending) w in
      let order = in_order es (idle worker_count) in
      let free =
        kept (Free worker_count) (loop-Free worker_count) es (idle worker_count) (omega arith) in
      let free' = kept (Free worker_count) (loop-Free worker_count) (rest_of w ending) w free in
      let counts = kept (Conserves p) (loop-Conserves p) es (idle worker_count) refl in
      let counts' = kept (Conserves p) (loop-Conserves p) (rest_of w ending) w counts in
      let (none_runs, none_queued, all) = drains ending worker_count w some_worker free in
      (
        order,
        free,
        counts,
        none_runs,
        none_queued,
        omega (arith, free', ap length none_runs),
        omega (arith, counts', ap (count p) none_runs, ap (count p) (all ∙ order)),
      )
