-- ===== src/Models/Convert.antt =====
-- The conversions of models.rs between a stored message and a message on the wire.
use paper_plane.Prelude.{
  ◌-◌, ◌^◌, ◌≤◌, ◌<◌, ◌≡◌, refl, ap, ◌↔◌, ◌⊎◌, List, [], ◌∷◌, map, arith, All,
}
use paper_plane.Models.{DbMessage, from_message, into_message}

-- A message whose counter is a u64 survives the wire exactly when this counter is below 2 ^ 31 or
-- at least 2 ^ 64 - 2 ^ 31, the ranges of an i32 whose sign is extended.
pub from_message-into_message :
    (m : DbMessage)
    → m.counter < 2 ^ 64
    → (from_message (into_message m) ≡ m) ↔ ((m.counter < 2 ^ 31) ⊎ (2 ^ 64 - 2 ^ 31 ≤ m.counter))
unfolding from_message into_message
from_message-into_message m h =
    (λ e. ground (arith, ap (λ (x : DbMessage). x.counter) e), λ r. ground arith)

pub map-from_message-into_message :
    (ms : List DbMessage)
    → All (λ m. m.counter < 2 ^ 31) ms
    → map from_message (map into_message ms) ≡ ms
unfolding from_message into_message
map-from_message-into_message [] h = refl
map-from_message-into_message (m ∷ ms) h = ground (arith, map-from_message-into_message ms)
