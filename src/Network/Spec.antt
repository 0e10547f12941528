-- ===== src/Network/Spec.antt =====
-- What a network of nodes promises, without its code: each author's log, which the author alone
-- extends, one message at a time, and of which every node has a beginning that only grows.
use paper_plane.Prelude.{◌+◌, ◌≡◌, ◌≢◌, ◌∙◌, ◌⊎◌, String, List, [], ◌∷◌, ◌++◌, length}
use paper_plane.Models.{DbMessage}
use paper_plane.Messages.Prefix.{Prefix, Prefix-trans}

-- What each node has of each author's log.
abbrev pub Views : Type 0
Views = String → String → List DbMessage

-- Node `i` adds its message `m` to its own log.
pub record Appends (i : String) (m : DbMessage) (v v' : Views) : Type 0 where
  pub author : m.peer_id ≡ i
  pub number : m.counter ≡ length (v i i) + 1
  pub own_log : v' i i ≡ v i i ++ m ∷ []
  pub others : (j id : String) → (j ≢ i) ⊎ (id ≢ i) → v' j id ≡ v j id

-- Nodes learn more of the logs.
pub record Learns (v v' : Views) : Type 0 where
  pub truths : (id : String) → v' id id ≡ v id id
  pub grows : (j id : String) → Prefix (v j id) (v' j id)
  pub beginnings : (j id : String) → Prefix (v' j id) (v' id id)

pub data SpecStep : Views → Views → Type 0 where
  appends : (i : String) (m : DbMessage) (v v' : Views) → Appends i m v v' → SpecStep v v'
  learns : (v v' : Views) → Learns v v' → SpecStep v v'

pub data SpecRun : Views → Views → Type 0 where
  stays : (v : Views) → SpecRun v v
  goes_on : (u v v' : Views) → SpecRun u v → SpecStep v v' → SpecRun u v'

pub Learns-trans : (u v w : Views) → Learns u v → Learns v w → Learns u w
Learns-trans u v w first second = record {
  truths = λ id. second.truths id ∙ first.truths id;
  grows = λ j id. Prefix-trans (u j id) (v j id) (w j id) (first.grows j id) (second.grows j id);
  beginnings = second.beginnings;
}
