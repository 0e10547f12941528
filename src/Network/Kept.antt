-- ===== src/Network/Kept.antt =====
-- What a node's step does to what the nodes have of the logs.
use paper_plane.Prelude.{
  Option, any, false, ℕ, ◌+◌, ◌^◌, ◌<◌, ◌≡◌, refl, sym, ap, ◌∙◌, String, List, [], ◌∷◌, ◌++◌, arith,
  inl, inr, length,
}
use paper_plane.Models.{DbMessage, MessagePayload}
use paper_plane.Messages.Log.{log}
use paper_plane.Messages.Prefix.{Prefix, Prefix-refl, Prefix_antisym}
use paper_plane.Node.{Node}
use paper_plane.Network.{Network, update, truth}
use paper_plane.Network.Deliver.{Received, each_author}
use paper_plane.Network.Consistent.{
  Consistent, Consistent-Wireable, Received-Consistent, Added-Consistent, update_self, update_other,
}
use paper_plane.Network.Own.{Added, Added_own, Added_other, add_own_message-OwnAdded}
use paper_plane.Manager.{add_own_message}
use paper_plane.Messages.{has_id}
use paper_plane.Network.Spec.{Views, Appends, Learns, Learns-trans}

abbrev pub views : Network → Views
views net j id = log id (net j).db

-- The network is consistent again, and nodes have learnt more of the logs.
abbrev pub Kept : Network → Network → Type 0
Kept net net' = Consistent net' × Learns (views net) (views net')

pub Kept-refl : (net : Network) → Consistent net → Kept net net
Kept-refl net h = (
  h,
  record {
    truths = λ id. refl;
    grows = λ j id. Prefix-refl (views net j id);
    beginnings = λ j id. (h.fits j).beginning id;
  },
)

pub Kept-trans : (a b c : Network) → Kept a b → Kept b c → Kept a c
Kept-trans a b c (_, first) (h, second) =
    (h, Learns-trans (views a) (views b) (views c) first second)

pub Received-Kept :
    (net : Network) (i : String) (n' : Node)
    → Consistent net
    → Received (truth net) (net i) n'
    → Kept net (update i n' net)
Received-Kept net i n' h received =
    let (fits, extends) = received in
    let after = update i n' net in
    let reached = Received-Consistent net i n' h received in
    (
      reached,
      record {
        truths =
            each_author (λ id. truth after id ≡ truth net id) i
              (rw (update_self i n' net)
                (sym (Prefix_antisym (truth net i) (log i n'.db) (extends i) (fits.beginning i))))
              (λ other ne. ap (λ (n : Node). log other n.db) (update_other i other n' net ne));
        grows =
            each_author (λ j. (id : String) → Prefix (views net j id) (views after j id)) i
              (λ id. rw (update_self i n' net) (extends id))
              (λ other ne id.
                rw (update_other i other n' net ne) (Prefix-refl (views net other id)));
        beginnings = λ j id. (reached.fits j).beginning id;
      },
    )

-- The author's log goes on by one message, and nothing else changes.
Added-Appends :
    (net : Network) (i : String) (m : DbMessage) (n n' : Node)
    → n.db ≡ (net i).db
    → m.peer_id ≡ i
    → m.counter ≡ length (truth net i) + 1
    → Added i m n n'
    → Appends i m (views net) (views (update i n' net))
Added-Appends net i m n n' db author number added =
    let same : (id : String) → log id n.db ≡ views net i id = λ id. ap (log id) db in
    record {
      author = author;
      number = number;
      own_log =
          rw (update_self i n' net)
            (Added_own i m n n' added author ∙ ap (λ (l : List DbMessage). l ++ m ∷ []) (same i));
      others = λ j id differs. elim differs [
        | inl node ↦ ap (λ (x : Node). log id x.db) (update_other i j n' net (λ e. node (sym e)))
        | inr other ↦
            each_author (λ j. views (update i n' net) j id ≡ views net j id) i
              (rw (update_self i n' net)
                (Added_other i m n n' added author id (λ e. other (sym e)) ∙ same id))
              (λ k ne. ap (λ (x : Node). log id x.db) (update_other i k n' net ne)) j
      ];
    }

pub own-Appends :
    (decode : List ℕ → Option MessagePayload) (null : ℕ) (net : Network) (m : DbMessage)
    → null ≡ 0
    → Consistent net
    → m.counter ≡ 0
    → any (has_id m.id) (net m.peer_id).db.rows ≡ false
    → length (truth net m.peer_id) + 1 < 2 ^ 31
    → let net' = update m.peer_id (add_own_message null decode m (net m.peer_id)).1 net in
      Consistent net' × ((m' : DbMessage) × Appends m.peer_id m' (views net) (views net'))
own-Appends decode null net m zeroes h own fresh few =
    let i = m.peer_id in
    let step =
      add_own_message-OwnAdded decode null (truth net) m (net i) zeroes (Consistent-Wireable net h)
        (h.fits i) own fresh in
    let n = step.open_node in
    let whole : log i n.db ≡ truth net i = ap (log i) step.same_db in
    let number : step.message.counter ≡ length (truth net i) + 1 =
      ground (arith, step.number, step.is_log.counted, ap length whole, few) in
    (
      Added-Consistent net i step.message n _ h step.received whole step.is_log step.author
          step.number few step.added,
      (
        step.message,
        Added-Appends net i step.message n _ step.same_db step.author number step.added,
      ),
    )
