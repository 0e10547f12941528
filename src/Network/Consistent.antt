-- ===== src/Network/Consistent.antt =====
-- The invariant of a network: every node holds beginnings of the authors' own logs. It is kept when
-- a node receives what stands in the logs, and when an author adds a message.
use paper_plane.Prelude.{
  ◌+◌, ◌^◌, ◌<◌, ◌≡◌, ◌≢◌, sym, ap, subst, ◌∙◌, String, [], ◌∷◌, arith, length, length-append,
  eq_iff,
}
use paper_plane.Prelude.Word.{add64}
use paper_plane.Models.{DbMessage}
use paper_plane.Messages.{MessageDatabase}
use paper_plane.Messages.Log.{log}
use paper_plane.Messages.Prefix.{Prefix, In, snoc-In, Prefix-refl, Prefix-length, Prefix-trans}
use paper_plane.Node.{Node, cur_counter}
use paper_plane.Repository.Log.{IsLog}
use paper_plane.Repository.Queued.{Queued-All}
use paper_plane.Network.{Network, update, truth}
use paper_plane.Network.Fits.{SoundTask, Fits, Fits-Grow, Grow, queue-Grow, Extends, Wireable}
use paper_plane.Network.Deliver.{Received, each_author}
use paper_plane.Network.Own.{Added, Added_own, Added_other, Added-Extends, Added-HasLog}

pub record Consistent (net : Network) : Type 0 where
  pub fits : (i : String) → Fits (truth net) (net i)
  pub short : (id : String) → length (truth net id) < 2 ^ 31

pub Consistent-Wireable : (net : Network) → Consistent net → Wireable (truth net)
Consistent-Wireable net h id = ((((h.fits id).logs) id).numbered, h.short id)

pub update_self : (i : String) (n : Node) (net : Network) → update i n net i ≡ n
update_self i n net = ground (arith, eq_iff i i)

pub update_other : (i j : String) (n : Node) (net : Network) → i ≢ j → update i n net j ≡ net j
update_other i j n net ne = ground (arith, eq_iff i j)

pub truth-Grow :
    (net : Network) (i : String) (n' : Node)
    → Extends (net i) n'
    → Grow (truth net) (truth (update i n' net))
truth-Grow net i n' extends =
    each_author (λ id. Prefix (truth net id) (truth (update i n' net) id)) i
      (rw (update_self i n' net) (extends i))
      (λ other ne. rw (update_other i other n' net ne) (Prefix-refl (truth net other)))

-- One node is changed, in such a way that it fits the logs that there are then.
replaced :
    (net : Network) (i : String) (n' : Node)
    → Consistent net
    → Extends (net i) n'
    → Fits (truth (update i n' net)) n'
    → length (log i n'.db) < 2 ^ 31
    → Consistent (update i n' net)
replaced net i n' h extends fits few =
    let grow = truth-Grow net i n' extends in
    let after = update i n' net in
    record {
      fits =
          each_author (λ j. Fits (truth after) (after j)) i
            (subst (Fits (truth after)) (sym (update_self i n' net)) fits)
            (λ other ne.
              subst (Fits (truth after)) (sym (update_other i other n' net ne))
                (Fits-Grow (truth net) (truth after) (net other) grow (h.fits other)));
      short =
          each_author (λ id. length (truth after id) < 2 ^ 31) i (rw (update_self i n' net) few)
            (λ other ne. rw (update_other i other n' net ne) (h.short other));
    }

pub Received-Consistent :
    (net : Network) (i : String) (n' : Node)
    → Consistent net
    → Received (truth net) (net i) n'
    → Consistent (update i n' net)
Received-Consistent net i n' h (fits, extends) =
    replaced net i n' h extends
      (Fits-Grow (truth net) (truth (update i n' net)) n' (truth-Grow net i n' extends) fits)
      (omega (arith, h.short i, Prefix-length (log i n'.db) (truth net i) (fits.beginning i)))

-- A message of the author that was added to the author's node.
pub Added-Consistent :
    (net : Network) (i : String) (m : DbMessage) (n n' : Node)
    → Consistent net
    → Received (truth net) (net i) n
    → log i n.db ≡ truth net i
    → IsLog i n
    → m.peer_id ≡ i
    → m.counter ≡ add64 (cur_counter i n) 1
    → length (truth net i) + 1 < 2 ^ 31
    → Added i m n n'
    → Consistent (update i n' net)
Added-Consistent net i m n n' h (fits, first) whole is_log from next few added =
    let after = update i n' net in
    let own = Added_own i m n n' added from in
    let others = Added_other i m n n' added from in
    let extends : Extends (net i) n' = λ id.
      Prefix-trans (log id (net i).db) (log id n.db) (log id n'.db) (first id)
        (Added-Extends i m n n' added from id) in
    let grow = truth-Grow net i n' extends in
    let self = update_self i n' net in
    let inside : In m (truth after m.peer_id) =
      subst (λ a. In m (truth after a)) (sym from) (rw self (rw own (snoc-In m (log i n.db)))) in
    replaced net i n' h extends
      (record {
        online = ap (λ (d : MessageDatabase). d.online) added.db ∙ fits.online;
        logs = Added-HasLog i m n n' added from next (rw whole few) is_log fits.logs;
        beginning =
            each_author (λ id. Prefix (log id n'.db) (truth after id)) i
              (rw self (Prefix-refl (log i n'.db)))
              (λ other ne. rw (others other ne) (
                Prefix-trans (log other n.db) (truth net other) (truth after other)
                  (fits.beginning other) (grow other)));
        sound =
            Queued-All (SoundTask (truth after)) (m ∷ []) n n' added.queue
              (λ p. ((inside, tt), omega arith))
              (queue-Grow (truth net) (truth after) n.queue grow fits.sound);
      })
      (omega (arith, ap length own, ap length whole, length-append (log i n.db) (m ∷ []), few))
